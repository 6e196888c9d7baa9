-- ===== src/Tests/Shelves.antt =====
-- Tests of the templates, with an engine that refuses a body starting with `{` and appends the
-- variables to the body.
use event_driven_notificatio.Base.{
  ◌≡◌, refl, List, [], ◌∷◌, ◌++◌, Option, none, some, Text, codes, text_eq, true, if◌then◌else◌,
  ◌==◌,
}
use event_driven_notificatio.Domain.Errors.{ok}
use event_driven_notificatio.Domain.Channel.{channel_of, email, new_channel}
use event_driven_notificatio.Ports.{Env}
use event_driven_notificatio.Ports.Calm.{calm}
use event_driven_notificatio.Conversion.{uuid_text}
use event_driven_notificatio.Templates.{Engine, new_template}
use event_driven_notificatio.Templates.Rows.{TemplateRow, Shelf}
use event_driven_notificatio.Templates.Kept.{IsShelved}
use event_driven_notificatio.Templates.Service.{
  Request, creates_template, replaces_template, deletes_template, renders_template, serve_all,
  replace_template, get_template, TemplateInput,
}
use event_driven_notificatio.Templates.Safety
use event_driven_notificatio.Templates.Replaced
use event_driven_notificatio.Templates.Replaced.{replaced}
use event_driven_notificatio.Listing.Query.{text_lt}
use event_driven_notificatio.Tests.{accepting, cut_off}
use event_driven_notificatio.Tests.Lists.{uuid, uuid_bytes, scan}

parsed : Text → Option Text
parsed [] = some []
parsed (c ∷ body) = if c == b'{' then none else some (c ∷ body)

abbrev appending : Engine
appending = record {
  Tree = Text;
  Vars = Text;
  parse = λ strict name body. parsed body;
  print = λ tree vars. some (tree ++ vars);
}

abbrev greeting : TemplateRow
greeting = record {
  id = record { bytes = uuid_bytes; valid = true };
  name = codes "greeting";
  channel = codes "sms";
  body = codes "hi ";
  created_at = 10;
  updated_at = 10;
}

abbrev shelf : Shelf
shelf = record { rows = greeting ∷ []; tick = 0 }

abbrev farewell : TemplateInput
farewell = record { name = codes "farewell"; channel = codes "Email"; body = codes "bye " }

shelf-IsShelved : IsShelved appending shelf.rows
unfolding channel_of parsed
shelf-IsShelved = ((tt, tt), ((refl, refl, refl, [], codes "hi ", refl), tt))

abbrev calls : List (Request appending × Env)
calls =
    (creates_template farewell, accepting)
    ∷ ((replaces_template uuid farewell, accepting)
        ∷ ((renders_template uuid (codes "Ann"), accepting)
            ∷ ((deletes_template uuid, cut_off) ∷ [])))

serve_all-IsShelved_example :
    IsShelved appending (serve_all appending scan text_lt calls shelf).rows
serve_all-IsShelved_example =
    Safety.serve_all-IsShelved appending scan text_lt calls shelf shelf-IsShelved

replace_template_lem_example :
    ((replace_template appending scan uuid farewell (calm accepting) shelf).0
      ≡ ok (replaced farewell uuid email 10 1001))
    × ((get_template appending scan uuid
          (calm accepting)
          (replace_template appending scan uuid farewell (calm accepting) shelf).1).0
        ≡ ok (record (replaced farewell uuid email 10 1001) { updated_at = 10 }))
unfolding text_eq uuid_text new_channel new_template parsed
replace_template_lem_example =
    Replaced.replace_template_lem appending scan uuid uuid_bytes accepting accepting farewell email
      shelf greeting refl refl refl refl refl refl refl
