-- ===== src/Templates/Replaced.antt =====
-- internal/application/templates.go: what a replaced template reads as.
use event_driven_notificatio.Base.{
  ℕ, ◌+◌, ◌≡◌, refl, true, false, List, [], ◌∷◌, map, some, Text, arith,
}
use event_driven_notificatio.Domain.Errors.{ok}
use event_driven_notificatio.Domain.Channel.{Channel, channel_of, new_channel, new_channel_valid}
use event_driven_notificatio.Conversion.{Uuid, Scan, parse_uuid, uuid_text, uuid_to_string}
use event_driven_notificatio.Ports.{Env}
use event_driven_notificatio.Ports.Calm.{calm}
use event_driven_notificatio.Templates.{Engine, Template, new_template, template_of}
use event_driven_notificatio.Templates.Rows.{
  Rows, TemplateRow, Shelf, first_row, any_row, same_id, overwritten, name_taken, channel_check,
  params_of, update_template, get_row, update_template_row, template_from_row,
}
use event_driven_notificatio.Templates.Safety.{known_text, channel_of-channel_text}
use event_driven_notificatio.Templates.Service.{
  TemplateInput, new_input, get_template, replace_template,
}

overwritten-found :
    (p : TemplateRow) (rows : Rows) (r : TemplateRow)
    → first_row (same_id p.id) rows ≡ some r
    → (any_row (same_id p.id) rows ≡ true)
      × (first_row (same_id p.id) (map (overwritten p) rows)
          ≡ some (record r { name = p.name; channel = p.channel; body = p.body }))
overwritten-found p [] r h = cc
overwritten-found p (q ∷ rows) r h = ground (arith, overwritten-found p rows r)

update_template_free :
    (p : TemplateRow) (rows : Rows)
    → channel_check p ≡ true
    → any_row (same_id p.id) rows ≡ true
    → any_row (name_taken p) rows ≡ false
    → update_template p rows ≡ some (map (overwritten p) rows)
unfolding update_template
update_template_free p rows c h k = rw (h, c, k) refl

abbrev read_as : Text → TemplateRow → Template
read_as text r = record {
  id = text;
  name = r.name;
  channel = channel_of r.channel;
  body = r.body;
  created_at = r.created_at;
  updated_at = r.updated_at;
}

abbrev pub key_of : List ℕ → Uuid
key_of bytes = record { bytes = bytes; valid = true }

-- What the use case returns.
abbrev pub replaced : TemplateInput → Text → Channel → ℕ → ℕ → Template
replaced input text channel created t = record {
  id = text;
  name = input.name;
  channel = channel;
  body = input.body;
  created_at = created;
  updated_at = t;
}

module _ (scan : Scan) (text : Text) (bytes : List ℕ) (scanned : scan text ≡ some bytes)
    (canonical : uuid_text bytes ≡ text) (e : Env) where
  get_row_found :
      (s : Shelf) (r : TemplateRow)
      → first_row (same_id (key_of bytes)) s.rows ≡ some r
      → r.id ≡ (key_of bytes)
      → get_row scan text (calm e) s
        ≡ (ok (read_as text r), record { rows = s.rows; tick = s.tick + 1 })
  unfolding get_row parse_uuid template_from_row uuid_to_string
  get_row_found s r h i = rw (scanned, h, i, canonical) refl

  update_row_found :
      (s : Shelf) (tpl : Template) (rows : Rows)
      → tpl.id ≡ text
      → update_template (params_of (key_of bytes) tpl) s.rows ≡ some rows
      → update_template_row scan tpl (calm e) s ≡ (ok tt, record { rows = rows; tick = s.tick + 1 })
  unfolding update_template_row parse_uuid
  update_row_found s tpl rows i h = rw (i, scanned, h) refl

-- Where no call fails, the replacement of a stored template by an input that NewTemplate accepts and
-- whose name no other template has, with an id that is written as the database writes it, returns the
-- input's fields under the old id and the old time of creation, with the time of the call as the time
-- of the update; a later read returns the same, except that the time of the update is still the one
-- from before.
pub replace_template_lem :
    (g : Engine) (scan : Scan) (text : Text) (bytes : List ℕ) (e later : Env)
    (input : TemplateInput) (channel : Channel) (s : Shelf) (r : TemplateRow)
    → scan text ≡ some bytes
    → uuid_text bytes ≡ text
    → first_row (same_id (key_of bytes)) s.rows ≡ some r
    → r.id ≡ key_of bytes
    → new_channel input.channel ≡ ok channel
    → new_template g (new_input input text channel) (e.time (s.tick + 1))
      ≡ ok (template_of (new_input input text channel) (e.time (s.tick + 1)))
    → any_row
        (name_taken (
          params_of
            (key_of bytes)
            (replaced input text channel r.created_at (e.time (s.tick + 1)))))
        s.rows
      ≡ false
    → ((replace_template g scan text input (calm e) s).0
        ≡ ok (replaced input text channel r.created_at (e.time (s.tick + 1))))
      × ((get_template g scan text (calm later) (replace_template g scan text input (calm e) s).1).0
          ≡ ok (record (replaced input text channel r.created_at (e.time (s.tick + 1))) {
            updated_at = r.updated_at;
          }))
unfolding replace_template get_template
replace_template_lem g scan text bytes e later input channel s r scanned canonical found keyed known
      accepted free =
    let tpl : Template = replaced input text channel r.created_at (e.time (s.tick + 1)) in
    let p : TemplateRow = params_of (key_of bytes) tpl in
    let valid = new_channel_valid input.channel channel known in
    let (there, kept) = overwritten-found p s.rows r found in
    let written = update_template_free p s.rows (known_text channel valid) there free in
    rw
      (
        get_row_found scan text bytes scanned canonical e s r found keyed,
        known,
        accepted,
        update_row_found scan text bytes scanned canonical e
            (record { rows = s.rows; tick = s.tick + 1 + 1 }) tpl (map (overwritten p) s.rows) refl
            written,
        get_row_found scan text bytes scanned canonical later
            (record { rows = map (overwritten p) s.rows; tick = s.tick + 1 + 1 + 1 }) _ kept keyed,
        channel_of-channel_text channel valid,
      )
      (refl, refl)
