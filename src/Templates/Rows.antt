-- ===== src/Templates/Rows.antt =====
-- internal/adapters/postgres/template_repository.go and sqlc/templates.sql.go, over the templates
-- table of db/migrations, of which 000002 drops the trigger on updated_at. `scan` is the parser of
-- pgtype and `name_le` the collation of the database.
use event_driven_notificatio.Base.{
  ℕ, ◌+◌, Bool, false, not, ◌&&◌, ◌||◌, List, [], ◌∷◌, map, Option, none, some, Text, text_eq,
  if◌then◌else◌, take, select,
}
use event_driven_notificatio.Domain.Errors.{Result, ok, err, not_found, adapter_failure}
use event_driven_notificatio.Domain.Channel.{channel_of, channel_text, is_valid_channel}
use event_driven_notificatio.Conversion.{Uuid, Scan, parse_uuid, uuid_to_string}
use event_driven_notificatio.Ports.{Env, Fault, fine, lost, unconfirmed}
use event_driven_notificatio.Templates.{Template}

-- CreateTemplateParams, and the row of sqlc.
pub record TemplateRow : Type 0 where
  pub id : Uuid
  pub name : Text
  pub channel : Text
  pub body : Text
  pub created_at : ℕ
  pub updated_at : ℕ

abbrev pub Rows : Type 0
Rows = List TemplateRow

-- The table, and the number of calls made so far.
pub record Shelf : Type 0 where
  pub rows : Rows
  pub tick : ℕ

-- An operation leaves its result and the table.
abbrev pub Op {ℓ} : Type ℓ → Type ℓ
Op A = Env → Shelf → Result A × Shelf

-- `if err != nil { return err }` behind a call.
abbrev pub continued {ℓ κ} :
    {A : Type ℓ} {B : Type κ} → (A → Op B) → Env → Result A × Shelf → Result B × Shelf
continued k e (err x, s) = (err x, s)
continued k e (ok a, s) = k a e s

infixl 5 ◌>>=◌ ◌>>◌
abbrev pub ◌>>=◌ {ℓ κ} : {A : Type ℓ} {B : Type κ} → Op A → (A → Op B) → Op B
◌>>=◌ m k e s = continued k e (m e s)

abbrev pub ◌>>◌ {ℓ} : {B : Type ℓ} → Op (Unit {0}) → Op B → Op B
m >> k = m >>= λ _. k

abbrev pub pass {ℓ} : {A : Type ℓ} → Result A → Op A
pass r e s = (r, s)

abbrev pub ticked_shelf : Shelf → Shelf
ticked_shelf s = record s { tick = s.tick + 1 }

-- A reading of the clock, and an id of the generator.
abbrev pub clock_now : Op ℕ
clock_now e s = (ok (e.time s.tick), ticked_shelf s)

abbrev pub fresh_id : Op Text
fresh_id e s = (ok (e.fresh s.tick), ticked_shelf s)

-- The end of a statement: it goes well, fails without effect, or fails after its effect.
abbrev pub ended {ℓ} : {A : Type ℓ} → Fault → Shelf → Result A × Rows → Result A × Shelf
ended fine s (result, rows) = (result, record { rows = rows; tick = s.tick + 1 })
ended lost s (result, rows) = (err adapter_failure, record { rows = s.rows; tick = s.tick + 1 })
ended unconfirmed s (result, rows) =
    (err adapter_failure, record { rows = rows; tick = s.tick + 1 })

-- A statement.
abbrev pub statement {ℓ} : {A : Type ℓ} → (Rows → Result A × Rows) → Op A
statement f e s = ended (e.fault s.tick) s (f s.rows)

abbrev pub same_id : Uuid → TemplateRow → Bool
same_id id r = text_eq r.id.bytes id.bytes

-- The primary key and the unique index.
abbrev pub clash : TemplateRow → TemplateRow → Bool
clash r q = text_eq r.id.bytes q.id.bytes || text_eq r.name q.name

abbrev pub any_row : (TemplateRow → Bool) → Rows → Bool
any_row test [] = false
any_row test (r ∷ rows) = test r || any_row test rows

-- templates_channel_check.
abbrev pub channel_check : TemplateRow → Bool
channel_check r = is_valid_channel (channel_of r.channel)

abbrev pub changed : Rows → Option Rows → Result (Unit {0}) × Rows
changed rows none = (err adapter_failure, rows)
changed rows (some rows') = (ok tt, rows')

-- CreateTemplate.
unfoldable pub insert_template : TemplateRow → Rows → Option Rows
insert_template r rows =
    if channel_check r && not (any_row (clash r) rows) then some (r ∷ rows) else none

-- GetTemplate and GetTemplateByName.
abbrev pub first_row : (TemplateRow → Bool) → Rows → Option TemplateRow
first_row test [] = none
first_row test (r ∷ rows) = if test r then some r else first_row test rows

-- SET of UpdateTemplate, which leaves updated_at.
abbrev pub overwritten : TemplateRow → TemplateRow → TemplateRow
overwritten p r =
    if same_id p.id r then record r { name = p.name; channel = p.channel; body = p.body } else r

abbrev pub name_taken : TemplateRow → TemplateRow → Bool
name_taken p r = not (same_id p.id r) && text_eq r.name p.name

-- UpdateTemplate; with no row of the id it changes nothing and does not fail.
unfoldable pub update_template : TemplateRow → Rows → Option Rows
update_template p rows =
    if any_row (same_id p.id) rows
    then if channel_check p && not (any_row (name_taken p) rows)
      then some (map (overwritten p) rows)
      else none
    else some rows

-- DeleteTemplate.
unfoldable pub delete_row : Uuid → Rows → Rows
delete_row id rows = select (λ r. not (same_id id r)) rows

-- ListTemplates: ORDER BY name, LIMIT.
abbrev pub insert_by_name : (Text → Text → Bool) → TemplateRow → Rows → Rows
insert_by_name name_le r [] = r ∷ []
insert_by_name name_le r (q ∷ rows) =
    let rest = insert_by_name name_le r rows in
    if name_le r.name q.name then r ∷ (q ∷ rows) else q ∷ rest

abbrev pub by_name : (Text → Text → Bool) → Rows → Rows
by_name name_le [] = []
by_name name_le (r ∷ rows) = insert_by_name name_le r (by_name name_le rows)

abbrev pub with_text_id : TemplateRow → Result Text → Result Template
with_text_id r (err x) = err x
with_text_id r (ok id) = ok (record {
  id = id;
  name = r.name;
  channel = channel_of r.channel;
  body = r.body;
  created_at = r.created_at;
  updated_at = r.updated_at;
})

-- templateFromRow.
unfoldable pub template_from_row : TemplateRow → Result Template
unfolding uuid_to_string
template_from_row r = with_text_id r (uuid_to_string r.id)

-- The loop of List.
abbrev pub templates_from_rows : Rows → Result (List Template)
unfolding template_from_row
templates_from_rows [] = ok []
templates_from_rows (r ∷ rows) = elim (template_from_row r) [
  | err x ↦ err x
  | ok t ↦ elim (templates_from_rows rows) [ err x ↦ err x | ok ts ↦ ok (t ∷ ts) ]
]

abbrev pub params_of : Uuid → Template → TemplateRow
params_of id t = record {
  id = id;
  name = t.name;
  channel = channel_text t.channel;
  body = t.body;
  created_at = t.created_at;
  updated_at = t.updated_at;
}

abbrev pub found_row : Option TemplateRow → Result TemplateRow
found_row none = err not_found
found_row (some r) = ok r

-- TemplateRepository.GetByName.
unfoldable pub get_row_by_name : Text → Op Template
unfolding template_from_row
get_row_by_name name = do
  r ← statement λ rows. (found_row (first_row (λ q. text_eq q.name name) rows), rows)
  pass (template_from_row r)

-- TemplateRepository.List.
unfoldable pub list_templates_rows : (Text → Text → Bool) → ℕ → Op (List Template)
list_templates_rows name_le limit = do
  rows ← statement λ rows. (ok (take limit (by_name name_le rows)), rows)
  pass (templates_from_rows rows)

module _ (scan : Scan) where
  -- TemplateRepository.Create.
  unfoldable pub create_row : Template → Op (Unit {0})
  unfolding insert_template
  create_row t = do
    id ← pass (parse_uuid scan t.id)
    statement λ rows. changed rows (insert_template (params_of id t) rows)

  -- TemplateRepository.Get.
  unfoldable pub get_row : Text → Op Template
  unfolding template_from_row
  get_row text = do
    id ← pass (parse_uuid scan text)
    r ← statement λ rows. (found_row (first_row (same_id id) rows), rows)
    pass (template_from_row r)

  -- TemplateRepository.Update.
  unfoldable pub update_template_row : Template → Op (Unit {0})
  unfolding update_template
  update_template_row t = do
    id ← pass (parse_uuid scan t.id)
    statement λ rows. changed rows (update_template (params_of id t) rows)

  -- TemplateRepository.Delete.
  unfoldable pub delete_template_row : Text → Op (Unit {0})
  unfolding delete_row
  delete_template_row text = do
    id ← pass (parse_uuid scan text)
    statement λ rows. (ok tt, delete_row id rows)
