-- ===== src/Http/Writer.antt =====
-- internal/adapters/http/idempotency.go: capturingWriter, over the calls that a handler makes of its
-- ResponseWriter.
use event_driven_notificatio.Base.{
  ℕ, ◌≡◌, refl, sym, ap, ◌∙◌, inl, inr, Bool-cases, Bool, true, false, List, [], ◌∷◌, ◌++◌, Text,
  if◌then◌else◌, arith,
}
use mathlib.Core.List.{append_assoc, append-nil}

abbrev pub Bytes : Type 0
Bytes = List ℕ

pub data WriterCall : Type 0 where
  write_header : ℕ → WriterCall
  write : Bytes → WriterCall

-- What a handler leaves: the Content-Type of the header map, and its calls.
pub record Reply : Type 0 where
  pub content_type : Text
  pub calls : List WriterCall

-- capturingWriter; `forwarded` lists the calls of the writer below.
pub record CapturingWriter : Type 0 where
  pub forwarded : List WriterCall
  pub body : Bytes
  pub status : ℕ
  pub wrote_header : Bool

abbrev pub fresh_writer : CapturingWriter
fresh_writer = record { forwarded = []; body = []; status = 200; wrote_header = false }

-- WriteHeader and Write.
unfoldable pub call_writer : WriterCall → CapturingWriter → CapturingWriter
call_writer (write_header status) c = if c.wrote_header then c else record c {
  status = status;
  wrote_header = true;
  forwarded = c.forwarded ++ write_header status ∷ [];
}
call_writer (write p) c = record c {
  wrote_header = true;
  body = c.body ++ p;
  forwarded = c.forwarded ++ write p ∷ [];
}

unfoldable pub capture : List WriterCall → CapturingWriter → CapturingWriter
unfolding call_writer
capture [] c = c
capture (call ∷ calls) c = capture calls (call_writer call c)

-- What net/http makes of the calls: the status of the first WriteHeader, unless a Write comes before
-- it, and the bytes of every Write.
abbrev pub sent_status : List WriterCall → ℕ
sent_status [] = 200
sent_status (write_header status ∷ calls) = status
sent_status (write p ∷ calls) = 200

abbrev pub sent_body : List WriterCall → Bytes
sent_body [] = []
sent_body (write_header status ∷ calls) = sent_body calls
sent_body (write p ∷ calls) = p ++ sent_body calls

sent_body-append : (xs ys : List WriterCall) → sent_body (xs ++ ys) ≡ sent_body xs ++ sent_body ys
sent_body-append [] ys = refl
sent_body-append (write_header s ∷ xs) ys = sent_body-append xs ys
sent_body-append (write p ∷ xs) ys =
    rw (sent_body-append xs ys) (sym (append_assoc p (sent_body xs) (sent_body ys)))

-- One call.
call-body :
    (x : WriterCall) (c : CapturingWriter) → (call_writer x c).body ≡ c.body ++ sent_body (x ∷ [])
unfolding call_writer
call-body (write_header s) c = elim (Bool-cases c.wrote_header) [
  | inl e ↦ rw e (sym (append-nil c.body))
  | inr e ↦ rw e (sym (append-nil c.body))
]
call-body (write p) c = rw (append-nil p)

call-forwarded :
    (x : WriterCall) (c : CapturingWriter)
    → sent_body (call_writer x c).forwarded ≡ sent_body c.forwarded ++ sent_body (x ∷ [])
unfolding call_writer
call-forwarded (write_header s) c = elim (Bool-cases c.wrote_header) [
  | inl e ↦ rw e (sym (append-nil (sent_body c.forwarded)))
  | inr e ↦ rw e (sent_body-append c.forwarded (write_header s ∷ []))
]
call-forwarded (write p) c = sent_body-append c.forwarded (write p ∷ [])

call-status :
    (x : WriterCall) (c : CapturingWriter)
    → c.wrote_header ≡ true
    → ((call_writer x c).status ≡ c.status) × ((call_writer x c).wrote_header ≡ true)
unfolding call_writer
call-status (write_header s) c h = ground arith
call-status (write p) c h = (refl, refl)

call-first :
    (x : WriterCall) (c : CapturingWriter) (first : WriterCall) (rest : List WriterCall)
    → c.forwarded ≡ first ∷ rest
    → (more : List WriterCall) × ((call_writer x c).forwarded ≡ first ∷ more)
unfolding call_writer
call-first (write_header s) c first rest h = elim (Bool-cases c.wrote_header) [
  | inl e ↦ (rest, rw e h)
  | inr e ↦ (rest ++ write_header s ∷ [], rw (e, h))
]
call-first (write p) c first rest h = (rest ++ write p ∷ [], rw h)

-- All of them.
sent_cons :
    (x : WriterCall) (calls : List WriterCall)
    → sent_body (x ∷ []) ++ sent_body calls ≡ sent_body (x ∷ calls)
sent_cons x calls = sym (sent_body-append (x ∷ []) calls)

capture-body :
    (calls : List WriterCall) (c : CapturingWriter)
    → (capture calls c).body ≡ c.body ++ sent_body calls
unfolding capture
capture-body [] c = sym (append-nil c.body)
capture-body (x ∷ calls) c =
    capture-body calls (call_writer x c)
    ∙ ap (λ b. b ++ sent_body calls) (call-body x c)
    ∙ append_assoc c.body (sent_body (x ∷ [])) (sent_body calls)
    ∙ ap (λ b. c.body ++ b) (sent_cons x calls)

capture-forwarded :
    (calls : List WriterCall) (c : CapturingWriter)
    → sent_body (capture calls c).forwarded ≡ sent_body c.forwarded ++ sent_body calls
unfolding capture
capture-forwarded [] c = sym (append-nil (sent_body c.forwarded))
capture-forwarded (x ∷ calls) c =
    capture-forwarded calls (call_writer x c)
    ∙ ap (λ b. b ++ sent_body calls) (call-forwarded x c)
    ∙ append_assoc (sent_body c.forwarded) (sent_body (x ∷ [])) (sent_body calls)
    ∙ ap (λ b. sent_body c.forwarded ++ b) (sent_cons x calls)

capture-status :
    (calls : List WriterCall) (c : CapturingWriter)
    → c.wrote_header ≡ true
    → (capture calls c).status ≡ c.status
unfolding capture
capture-status [] c h = refl
capture-status (x ∷ calls) c h =
    let (same, still) = call-status x c h in capture-status calls (call_writer x c) still ∙ same

capture-first :
    (calls : List WriterCall) (c : CapturingWriter) (first : WriterCall) (rest : List WriterCall)
    → c.forwarded ≡ first ∷ rest
    → sent_status (capture calls c).forwarded ≡ sent_status (first ∷ rest)
unfolding capture
capture-first [] c (write_header s) rest h = rw h
capture-first [] c (write p) rest h = rw h
capture-first (x ∷ calls) c (write_header s) rest h =
    let (more, e) = call-first x c (write_header s) rest h in
    capture-first calls (call_writer x c) (write_header s) more e
capture-first (x ∷ calls) c (write p) rest h =
    let (more, e) = call-first x c (write p) rest h in
    capture-first calls (call_writer x c) (write p) more e

captured_status :
    (calls : List WriterCall) → (capture calls fresh_writer).status ≡ sent_status calls
unfolding capture call_writer
captured_status [] = refl
captured_status (write_header s ∷ calls) =
    capture-status calls (call_writer (write_header s) fresh_writer) refl
captured_status (write p ∷ calls) = capture-status calls (call_writer (write p) fresh_writer) refl

forwarded_status :
    (calls : List WriterCall)
    → sent_status (capture calls fresh_writer).forwarded ≡ sent_status calls
unfolding capture call_writer
forwarded_status [] = refl
forwarded_status (write_header s ∷ calls) =
    capture-first calls (call_writer (write_header s) fresh_writer) (write_header s) [] refl
forwarded_status (write p ∷ calls) =
    capture-first calls (call_writer (write p) fresh_writer) (write p) [] refl

-- For every sequence of calls that a handler makes, the capturing writer records the status and the
-- bytes that net/http sends for them, and what it forwards has the same status and the same bytes.
pub capture_lem :
    (calls : List WriterCall)
    → let c = capture calls fresh_writer in
      (c.status ≡ sent_status calls)
      × (c.body ≡ sent_body calls)
      × (sent_status c.forwarded ≡ sent_status calls)
      × (sent_body c.forwarded ≡ sent_body calls)
capture_lem calls = (
  captured_status calls,
  capture-body calls fresh_writer,
  forwarded_status calls,
  capture-forwarded calls fresh_writer,
)
