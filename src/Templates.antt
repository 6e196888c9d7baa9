-- ===== src/Templates.antt =====
-- internal/domain/template.go. `Engine` is Go's text/template: what `Parse` makes of a body, with the
-- option missingkey=error or without, and what `Execute` writes.
pub mod Rows
pub mod Service
pub mod Kept
pub mod Safety
pub mod Replaced
use event_driven_notificatio.Base.{ℕ, Bool, true, false, not, Option, none, some, Text, is_empty}
use event_driven_notificatio.Domain.Errors.{
  Error, Result, ok, err, guard, ◌>>◌, ◌>>=◌, invalid_template_id, invalid_template_name,
  invalid_channel, invalid_template_body, template_render_failed,
}
use event_driven_notificatio.Domain.Channel.{Channel, is_valid_channel}

pub record Engine : Type 1 where
  pub Tree : Type 0
  pub Vars : Type 0
  pub parse : Bool → Text → Text → Option Tree
  pub print : Tree → Vars → Option Text

pub record Template : Type 0 where
  pub id : Text
  pub name : Text
  pub channel : Channel
  pub body : Text
  pub created_at : ℕ
  pub updated_at : ℕ

pub record NewTemplateInput : Type 0 where
  pub id : Text
  pub name : Text
  pub channel : Channel
  pub body : Text

-- `if err != nil` behind a call of the engine.
abbrev pub or_error {ℓ} : {A : Type ℓ} → Error → Option A → Result A
or_error e none = err e
or_error e (some a) = ok a

abbrev pub template_of : NewTemplateInput → ℕ → Template
template_of input t = record {
  id = input.id;
  name = input.name;
  channel = input.channel;
  body = input.body;
  created_at = t;
  updated_at = t;
}

-- NewTemplate.
unfoldable pub new_template : Engine → NewTemplateInput → ℕ → Result Template
new_template g input t = do
  guard (not (is_empty input.id)) invalid_template_id
  guard (not (is_empty input.name)) invalid_template_name
  guard (is_valid_channel input.channel) invalid_channel
  guard (not (is_empty input.body)) invalid_template_body
  tree ← or_error invalid_template_body (g.parse false input.id input.body)
  ok (template_of input t)

-- Template.Render.
unfoldable pub render : (g : Engine) → Template → g.Vars → Result Text
render g t vars = do
  tree ← or_error template_render_failed (g.parse true t.id t.body)
  or_error template_render_failed (g.print tree vars)
