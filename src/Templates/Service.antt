-- ===== src/Templates/Service.antt =====
-- internal/application/templates.go and internal/application/render_template.go, in the order of
-- their calls. `limit` is an int, of which a negative one is given as 0: both snap to the default.
use event_driven_notificatio.Base.{ℕ, Bool, ◌||◌, List, [], ◌∷◌, Text, if◌then◌else◌, ◌==◌, ltb}
use event_driven_notificatio.Domain.Errors.{ok}
use event_driven_notificatio.Domain.Channel.{Channel, new_channel}
use event_driven_notificatio.Conversion.{Scan}
use event_driven_notificatio.Ports.{Env}
use event_driven_notificatio.Templates.{Engine, Template, NewTemplateInput, new_template, render}
use event_driven_notificatio.Templates.Rows.{
  Op, Shelf, ◌>>=◌, ◌>>◌, pass, clock_now, fresh_id, create_row, get_row, list_templates_rows,
  update_template_row, delete_template_row,
}

-- CreateTemplateInput, and ReplaceTemplateInput without its id.
pub record TemplateInput : Type 0 where
  pub name : Text
  pub channel : Text
  pub body : Text

abbrev pub new_input : TemplateInput → Text → Channel → NewTemplateInput
new_input input id channel = record {
  id = id;
  name = input.name;
  channel = channel;
  body = input.body;
}

abbrev pub default_template_list_limit : ℕ
default_template_list_limit = 20

abbrev pub max_template_list_limit : ℕ
max_template_list_limit = 100

abbrev pub template_limit : ℕ → ℕ
template_limit limit =
    if limit == 0 || ltb max_template_list_limit limit then default_template_list_limit else limit

-- ListTemplates.Execute; the next cursor is always empty.
unfoldable pub list_templates : (Text → Text → Bool) → ℕ → Op (List Template)
unfolding list_templates_rows
list_templates name_le limit = list_templates_rows name_le (template_limit limit)

module _ (g : Engine) (scan : Scan) where
  -- CreateTemplate.Execute.
  unfoldable pub create_template : TemplateInput → Op Template
  unfolding new_template create_row
  create_template input = do
    channel ← pass (new_channel input.channel)
    id ← fresh_id
    t ← clock_now
    tpl ← pass (new_template g (new_input input id channel) t)
    create_row scan tpl
    pass (ok tpl)

  -- GetTemplate.Execute.
  unfoldable pub get_template : Text → Op Template
  unfolding get_row
  get_template id = get_row scan id

  -- ReplaceTemplate.Execute.
  unfoldable pub replace_template : Text → TemplateInput → Op Template
  unfolding new_template get_row update_template_row
  replace_template id input = do
    existing ← get_row scan id
    channel ← pass (new_channel input.channel)
    t ← clock_now
    updated ← pass (new_template g (new_input input id channel) t)
    update_template_row scan (record updated { created_at = existing.created_at })
    pass (ok (record updated { created_at = existing.created_at }))

  -- DeleteTemplate.Execute.
  unfoldable pub delete_template : Text → Op (Unit {0})
  unfolding delete_template_row
  delete_template id = delete_template_row scan id

  -- RenderTemplate.Execute.
  unfoldable pub render_stored : Text → g.Vars → Op Text
  unfolding render get_row
  render_stored id vars = do tmpl ← get_row scan id; pass (render g tmpl vars)

-- A call of one of the use cases.
pub data Request (g : Engine) : Type 0 where
  creates_template : TemplateInput → Request g
  gets_template : Text → Request g
  lists_templates : ℕ → Request g
  replaces_template : Text → TemplateInput → Request g
  deletes_template : Text → Request g
  renders_template : Text → g.Vars → Request g

module _ (g : Engine) (scan : Scan) (name_le : Text → Text → Bool) where
  -- What the call leaves.
  unfoldable pub serve : Request g → Env → Shelf → Shelf
  unfolding create_template get_template list_templates replace_template delete_template
      render_stored
  serve (creates_template input) e s = (create_template g scan input e s).1
  serve (gets_template id) e s = (get_template g scan id e s).1
  serve (lists_templates limit) e s = (list_templates name_le limit e s).1
  serve (replaces_template id input) e s = (replace_template g scan id input e s).1
  serve (deletes_template id) e s = (delete_template g scan id e s).1
  serve (renders_template id vars) e s = (render_stored g scan id vars e s).1

  unfoldable pub serve_all : List (Request g × Env) → Shelf → Shelf
  unfolding serve
  serve_all [] s = s
  serve_all ((r, e) ∷ calls) s = serve_all calls (serve r e s)
