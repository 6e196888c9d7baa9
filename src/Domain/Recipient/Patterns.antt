-- ===== src/Domain/Recipient/Patterns.antt =====
-- internal/domain/notification.go: the two recipient patterns against the languages that their
-- regular expressions describe.
use event_driven_notificatio.Base.{
  ℕ, ◌≤◌, ◌≡◌, refl, ap, ◌∙◌, ◌↔◌, ◌⊎◌, inl, inr, Bool, true, false, [], ◌∷◌, ◌++◌, Text, length,
  all, all-append, &&-true, ◌==◌, Bool-cases, arith,
}
use event_driven_notificatio.Domain.Recipient.{
  is_digit, is_clean, e164_match, dot_before_more, domain_match, local_match, email_match,
}

-- A plus, a digit from 1 to 9, and 1 to 14 digits.
pub record IsE164 (t : Text) : Type 0 where
  pub first : ℕ
  pub more : Text
  pub shape : t ≡ b'+' ∷ first ∷ more
  pub first_low : b'1' ≤ first
  pub first_high : first ≤ b'9'
  pub digits : all is_digit more ≡ true
  pub at_least : 1 ≤ length more
  pub at_most : length more ≤ 14

match-IsE164 : (t : Text) → e164_match t ≡ true → IsE164 t
unfolding e164_match
match-IsE164 [] h = cc
match-IsE164 (c ∷ []) h = ground arith
match-IsE164 (c ∷ d ∷ t) h = record {
  first = d;
  more = t;
  shape = ground arith;
  first_low = ground arith;
  first_high = ground arith;
  digits = ground arith;
  at_least = ground arith;
  at_most = ground arith;
}

IsE164-e164 : (t : Text) → IsE164 t → e164_match t ≡ true
unfolding e164_match
IsE164-e164 t v = rw v.shape (ground arith)

-- The pattern for phone numbers accepts exactly a plus, a digit from 1 to 9 and 1 to 14 digits.
pub e164_match_iff : (t : Text) → (e164_match t ≡ true) ↔ IsE164 t
e164_match_iff t = (match-IsE164 t, IsE164-e164 t)

-- local@host.top, each part not empty and without `@` and white space.
pub record IsEmail (t : Text) : Type 0 where
  pub local : Text
  pub host : Text
  pub top : Text
  pub shape : t ≡ local ++ (b'@' ∷ (host ++ (b'.' ∷ top)))
  pub local_clean : all is_clean local ≡ true
  pub host_clean : all is_clean host ≡ true
  pub top_clean : all is_clean top ≡ true
  pub local_some : 1 ≤ length local
  pub host_some : 1 ≤ length host
  pub top_some : 1 ≤ length top

dot_split :
    (t : Text) → dot_before_more t ≡ true → (h d : Text) × (t ≡ h ++ (b'.' ∷ d)) × (1 ≤ length d)
unfolding dot_before_more
dot_split [] e = cc
dot_split (c ∷ []) e = cc
dot_split (c ∷ d ∷ t) e = elim (Bool-cases (c == b'.')) [
  | inl dot ↦ ([], d ∷ t, ground arith, omega arith)
  | inr other ↦
      let (h, top, shape, some_top) = dot_split (d ∷ t) (ground arith) in (c ∷ h, top, cc, some_top)
]

dot_join : (h d : Text) → 1 ≤ length d → dot_before_more (h ++ (b'.' ∷ d)) ≡ true
unfolding dot_before_more
dot_join [] [] k = absurd (omega arith)
dot_join [] (x ∷ d) k = refl
dot_join (c ∷ []) d k = ground (arith, dot_join [] d k)
dot_join (c ∷ x ∷ h) d k = ground (arith, dot_join (x ∷ h) d k)

clean_parts :
    (h d : Text)
    → all is_clean (h ++ (b'.' ∷ d)) ≡ true
    → (all is_clean h ≡ true) × (all is_clean d ≡ true)
clean_parts h d e = ground (arith, all-append is_clean h (b'.' ∷ d))

domain_split :
    (t : Text)
    → domain_match t ≡ true
    → (h d : Text) × (t ≡ h ++ (b'.' ∷ d))
      × (all is_clean h ≡ true)
      × (all is_clean d ≡ true)
      × (1 ≤ length h)
      × (1 ≤ length d)
unfolding domain_match
domain_split [] e = cc
domain_split (c ∷ t) e =
    let (clean, dot) = &&-true (all is_clean (c ∷ t)) (dot_before_more t) e in
    let (head_clean, tail_clean) = &&-true (is_clean c) (all is_clean t) clean in
    let (h, d, shape, some_d) = dot_split t dot in
    let (h_clean, d_clean) = clean_parts h d (rw shape at tail_clean) in
    (c ∷ h, d, cc, ground arith, d_clean, omega arith, some_d)

local_join :
    (seen : Bool) (l rest : Text)
    → all is_clean l ≡ true
    → (seen ≡ true) ⊎ (1 ≤ length l)
    → domain_match rest ≡ true
    → local_match seen (l ++ (b'@' ∷ rest)) ≡ true
unfolding local_match
local_join seen [] rest h some_l d = ground arith
local_join seen (c ∷ l) rest h some_l d =
    ground (arith, local_join true l rest (ground arith) (inl refl) d)

local_split :
    (seen : Bool) (t : Text)
    → local_match seen t ≡ true
    → (l rest : Text) × (t ≡ l ++ (b'@' ∷ rest))
      × (all is_clean l ≡ true)
      × ((seen ≡ true) ⊎ (1 ≤ length l))
      × (domain_match rest ≡ true)
unfolding local_match
local_split seen [] e = cc
local_split seen (c ∷ t) e = elim (Bool-cases (c == b'@')) [
  | inl sign ↦ ([], t, ground arith, refl, inl (ground arith), ground arith)
  | inr other ↦
      let (l, rest, shape, clean, some_l, d) = local_split true t (ground arith) in
      (c ∷ l, rest, cc, ground arith, inr (omega arith), d)
]

domain_join :
    (h d : Text)
    → all is_clean h ≡ true
    → all is_clean d ≡ true
    → 1 ≤ length h
    → 1 ≤ length d
    → domain_match (h ++ (b'.' ∷ d)) ≡ true
unfolding domain_match
domain_join [] d hc dc hs ds = absurd (omega arith)
domain_join (c ∷ h) d hc dc hs ds =
    ground (arith, dot_join h d ds, all-append is_clean h (b'.' ∷ d))

match-IsEmail : (t : Text) → email_match t ≡ true → IsEmail t
unfolding email_match
match-IsEmail t e =
    let (l, rest, shape, l_clean, l_some, tail) = local_split false t e in
    let (h, d, tail_shape, h_clean, d_clean, h_some, d_some) = domain_split rest tail in
    record {
      local = l;
      host = h;
      top = d;
      shape = shape ∙ ap (λ r. l ++ (b'@' ∷ r)) tail_shape;
      local_clean = l_clean;
      host_clean = h_clean;
      top_clean = d_clean;
      local_some = ground arith;
      host_some = h_some;
      top_some = d_some;
    }

IsEmail-email : (t : Text) → IsEmail t → email_match t ≡ true
unfolding email_match
IsEmail-email t v = rw v.shape (
    local_join false v.local (v.host ++ (b'.' ∷ v.top)) v.local_clean (inr v.local_some)
      (domain_join v.host v.top v.host_clean v.top_clean v.host_some v.top_some))

-- The pattern for mail addresses accepts exactly the texts that split into local@host.top, with
-- three parts that are not empty and hold neither an `@` nor white space.
pub email_match_iff : (t : Text) → (email_match t ≡ true) ↔ IsEmail t
email_match_iff t = (match-IsEmail t, IsEmail-email t)
