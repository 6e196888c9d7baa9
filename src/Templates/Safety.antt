-- ===== src/Templates/Safety.antt =====
-- internal/application/templates.go and render_template.go: the use cases over the templates table,
-- whatever statements fail.
use event_driven_notificatio.Base.{
  ℕ, ◌≡◌, refl, subst, Bool, true, false, not, List, [], ◌∷◌, Option, none, some, Text, take,
  is_empty, text_eq, arith,
}
use event_driven_notificatio.Domain.Errors.{
  Result, ok, err, guard, seq_iff, guard_iff, called_ok, ok-injective, invalid_template_id,
  invalid_template_name, invalid_channel, invalid_template_body,
}
use event_driven_notificatio.Domain.Channel.{
  Channel, sms, email, push, other_channel, channel_of, channel_text, is_valid_channel, new_channel,
}
use event_driven_notificatio.Conversion.{Uuid, Scan, parse_uuid}
use event_driven_notificatio.Ports.{Env, Fault, fine, lost, unconfirmed}
use event_driven_notificatio.Templates.{Engine, Template, NewTemplateInput, new_template, or_error}
use event_driven_notificatio.Templates.Rows.{
  Rows, Shelf, Op, continued, ended, ◌>>=◌, pass, clock_now, fresh_id, statement, changed,
  params_of, found_row, first_row, same_id, by_name, templates_from_rows, insert_template,
  update_template, delete_row, template_from_row, create_row, get_row, update_template_row,
  delete_template_row, list_templates_rows,
}
use event_driven_notificatio.Templates.Kept.{
  IsAccepted, IsShelved, insert_template-IsShelved, update_template-IsShelved, delete_row-IsShelved,
}
use event_driven_notificatio.Templates.Service.{
  TemplateInput, new_input, template_limit, create_template, get_template, list_templates,
  replace_template, delete_template, render_stored, Request, creates_template, gets_template,
  lists_templates, replaces_template, deletes_template, renders_template, serve, serve_all,
}

-- A valid channel is read as it was written.
pub channel_of-channel_text :
    (c : Channel) → is_valid_channel c ≡ true → channel_of (channel_text c) ≡ c
unfolding channel_of channel_text text_eq
channel_of-channel_text sms h = refl
channel_of-channel_text email h = refl
channel_of-channel_text push h = refl
channel_of-channel_text (other_channel t) h = cc

pub known_text :
    (c : Channel)
    → is_valid_channel c ≡ true
    → is_valid_channel (channel_of (channel_text c)) ≡ true
known_text c h = rw (channel_of-channel_text c h) h

module _ (g : Engine) (input : NewTemplateInput) (t : ℕ) where
  pub new_template_accepts :
      (tpl : Template) (id : Uuid) (created : ℕ)
      → new_template g input t ≡ ok tpl
      → IsAccepted g (params_of id (record tpl { created_at = created }))
  unfolding new_template
  new_template_accepts tpl id created h =
      let (a, h1) = (seq_iff (guard (not (is_empty input.id)) invalid_template_id) _ tpl).0 h in
      let (b, h2) =
        (seq_iff (guard (not (is_empty input.name)) invalid_template_name) _ tpl).0 h1 in
      let (c, h3) = (seq_iff (guard (is_valid_channel input.channel) invalid_channel) _ tpl).0 h2 in
      let (d, h4) =
        (seq_iff (guard (not (is_empty input.body)) invalid_template_body) _ tpl).0 h3 in
      let (tree, p, q) =
        called_ok (or_error invalid_template_body (g.parse false input.id input.body)) _ h4 in
      subst (λ x. IsAccepted g (params_of id (record x { created_at = created }))) (ok-injective q)
        (
          ground (arith, b),
          ground (arith, d),
          known_text input.channel
              ((guard_iff (is_valid_channel input.channel) invalid_channel).0 c),
          input.id,
          tree,
          ground (arith, p),
        )

module _ (g : Engine) where
  -- The operation keeps the table in order.
  record Keeps {ℓ} {A : Type ℓ} (m : Op A) : Type 0 where
    pub run : (e : Env) (s : Shelf) → IsShelved g s.rows → IsShelved g (m e s).1.rows

  Keeps-pass {ℓ} : {A : Type ℓ} (r : Result A) → Keeps (pass r)
  Keeps-pass r = record { run = λ e s k. k }

  Keeps-bind {ℓ κ} :
      {A : Type ℓ} {B : Type κ} (m : Op A) (f : A → Op B)
      → Keeps m
      → ((a : A) → Keeps (f a))
      → Keeps (m >>= f)
  Keeps-bind {A = A} m f p q = record { run = λ e s k. go e (m e s) (p.run e s k) }
    where
      go :
          (e : Env) (o : Result A × Shelf)
          → IsShelved g o.1.rows
          → IsShelved g (continued f e o).1.rows
      go e (ok a, s) k = (q a).run e s k
      go e (err x, s) k = k

  Keeps-checked {ℓ κ} :
      {A : Type ℓ} {B : Type κ} (r : Result A) (f : A → Op B)
      → ((a : A) → r ≡ ok a → Keeps (f a))
      → Keeps (pass r >>= f)
  Keeps-checked (ok a) f q = record { run = λ e s. (q a refl).run e s }
  Keeps-checked (err x) f q = record { run = λ e s k. k }

  Keeps-statement {ℓ} :
      {A : Type ℓ} (f : Rows → Result A × Rows)
      → ((rows : Rows) → IsShelved g rows → IsShelved g (f rows).1)
      → Keeps (statement f)
  Keeps-statement {A = A} f h = record {
    run = λ e s k. go (e.fault s.tick) s (f s.rows) k (h s.rows k);
  }
    where
      go :
          (fate : Fault) (s : Shelf) (o : Result A × Rows)
          → IsShelved g s.rows
          → IsShelved g o.1
          → IsShelved g (ended fate s o).1.rows
      go fine s o k h = h
      go lost s o k h = k
      go unconfirmed s o k h = h

  Keeps-read {ℓ} : {A : Type ℓ} (f : Rows → Result A) → Keeps (statement λ rows. (f rows, rows))
  Keeps-read f = Keeps-statement (λ rows. (f rows, rows)) λ rows k. k

  Keeps-clock_now : Keeps clock_now
  Keeps-clock_now = record { run = λ e s k. k }

  Keeps-fresh_id : Keeps fresh_id
  Keeps-fresh_id = record { run = λ e s k. k }

  changed-IsShelved :
      (rows : Rows) (o : Option Rows)
      → ((rows' : Rows) → o ≡ some rows' → IsShelved g rows')
      → IsShelved g rows
      → IsShelved g (changed rows o).1
  changed-IsShelved rows none h k = k
  changed-IsShelved rows (some rows') h k = h rows' refl

  module _ (scan : Scan) where
    Keeps-create_row :
        (tpl : Template)
        → ((id : Uuid) → IsAccepted g (params_of id tpl))
        → Keeps (create_row scan tpl)
    unfolding create_row
    Keeps-create_row tpl fit = Keeps-bind (pass (parse_uuid scan tpl.id)) _ (Keeps-pass _) λ id.
        Keeps-statement (λ rows. changed rows (insert_template (params_of id tpl) rows))
          λ rows k.
            changed-IsShelved rows (insert_template (params_of id tpl) rows)
              (λ rows' h. insert_template-IsShelved g (params_of id tpl) (fit id) rows rows' h k) k

    Keeps-update_template_row :
        (tpl : Template)
        → ((id : Uuid) → IsAccepted g (params_of id tpl))
        → Keeps (update_template_row scan tpl)
    unfolding update_template_row
    Keeps-update_template_row tpl fit =
        Keeps-bind (pass (parse_uuid scan tpl.id)) _ (Keeps-pass _) λ id.
          Keeps-statement (λ rows. changed rows (update_template (params_of id tpl) rows))
            λ rows k.
              changed-IsShelved rows (update_template (params_of id tpl) rows)
                (λ rows' h. update_template-IsShelved g (params_of id tpl) (fit id) rows rows' h k)
                k

    Keeps-get_row : (text : Text) → Keeps (get_row scan text)
    unfolding get_row
    Keeps-get_row text = Keeps-bind (pass (parse_uuid scan text)) _ (Keeps-pass _) λ id.
        Keeps-bind _ _ (Keeps-read λ rows. found_row (first_row (same_id id) rows))
          λ r. Keeps-pass (template_from_row r)

    Keeps-delete_template : (text : Text) → Keeps (delete_template g scan text)
    unfolding delete_template delete_template_row
    Keeps-delete_template text = Keeps-bind (pass (parse_uuid scan text)) _ (Keeps-pass _) λ id.
        Keeps-statement (λ rows. (ok tt, delete_row id rows))
          λ rows k. delete_row-IsShelved g id rows k

    Keeps-create_template : (input : TemplateInput) → Keeps (create_template g scan input)
    unfolding create_template
    Keeps-create_template input = Keeps-bind _ _ (Keeps-pass (new_channel input.channel)) λ channel.
        Keeps-bind _ _ Keeps-fresh_id λ id. Keeps-bind _ _ Keeps-clock_now λ t.
          Keeps-checked (new_template g (new_input input id channel) t) _ λ tpl h.
            Keeps-bind _ _
              (Keeps-create_row tpl λ row.
                new_template_accepts g (new_input input id channel) t tpl row tpl.created_at h)
              λ done. Keeps-pass (ok tpl)

    Keeps-replace_template :
        (text : Text) (input : TemplateInput) → Keeps (replace_template g scan text input)
    unfolding replace_template
    Keeps-replace_template text input = Keeps-bind _ _ (Keeps-get_row text) λ existing.
        Keeps-bind _ _ (Keeps-pass (new_channel input.channel)) λ channel.
          Keeps-bind _ _ Keeps-clock_now λ t.
            Keeps-checked (new_template g (new_input input text channel) t) _ λ tpl h.
              Keeps-bind _ _
                (Keeps-update_template_row (record tpl { created_at = existing.created_at })
                  λ row.
                    new_template_accepts g (new_input input text channel) t tpl row
                      existing.created_at h)
                λ done. Keeps-pass (ok (record tpl { created_at = existing.created_at }))

    module _ (name_le : Text → Text → Bool) where
      serve-IsShelved :
          (r : Request g) (e : Env) (s : Shelf)
          → IsShelved g s.rows
          → IsShelved g (serve g scan name_le r e s).rows
      unfolding serve get_template list_templates list_templates_rows render_stored
      serve-IsShelved (creates_template input) e s = (Keeps-create_template input).run e s
      serve-IsShelved (gets_template id) e s = (Keeps-get_row id).run e s
      serve-IsShelved (lists_templates limit) e s =
          (Keeps-bind _ _
              (Keeps-read λ rows. ok (take (template_limit limit) (by_name name_le rows)))
              λ rows. Keeps-pass (templates_from_rows rows)).run
            e s
      serve-IsShelved (replaces_template id input) e s = (Keeps-replace_template id input).run e s
      serve-IsShelved (deletes_template id) e s = (Keeps-delete_template id).run e s
      serve-IsShelved (renders_template id vars) e s =
          (Keeps-bind _ _ (Keeps-get_row id) λ tpl. Keeps-pass _).run e s

      -- Any sequence of creations, reads, listings, replacements, deletions and renderings, each with any
      -- statements failing before or after their effect, leaves a table in which no two templates share an
      -- id or a name and each holds a name, a known channel and a body that parses, if it starts with
      -- such a table.
      pub serve_all-IsShelved :
          (calls : List (Request g × Env)) (s : Shelf)
          → IsShelved g s.rows
          → IsShelved g (serve_all g scan name_le calls s).rows
      unfolding serve_all
      serve_all-IsShelved [] s k = k
      serve_all-IsShelved ((r, e) ∷ calls) s k =
          serve_all-IsShelved calls (serve g scan name_le r e s) (serve-IsShelved r e s k)
