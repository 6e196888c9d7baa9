-- ===== src/Listing/Pages.antt =====
-- internal/application/list_notifications.go: what a caller gets who follows the cursors.
use event_driven_notificatio.Base.{
  ℕ, zero, suc, ◌+◌, ◌≤◌, ◌<◌, ◌≡◌, refl, sym, ap, subst, ◌∙◌, inl, inr, false, ◌&&◌, ◌||◌, ◌==◌,
  [], ◌∷◌, ◌++◌, Option, none, some, Text, take, drop, select, length, get_elem?, leb, ltb,
  if◌then◌else◌, All, Bool-cases, take-drop, get_elem?-drop, drop-drop, length-drop, take-all,
  take-take-suc, length-take, get_elem?-take, get_elem?-some, arith,
}
use mathlib.Core.List.{Perm}
use native.Mathlib.Nat.{add-suc}
use native.Mathlib.Numerals.{add-one}
use event_driven_notificatio.Domain.Errors.{Result, ok}
use event_driven_notificatio.Domain.Status.{Status}
use event_driven_notificatio.Domain.Channel.{Channel}
use event_driven_notificatio.Domain.Notification.{Notification}
use event_driven_notificatio.Store.{Table}
use event_driven_notificatio.Store.Claims.{IsKeyed}
use event_driven_notificatio.Ports.{Env, World, returns, lift, ◌>>=◌, return}
use event_driven_notificatio.Ports.Calm.{calm, step}
use event_driven_notificatio.Listing.Query.{ListFilter, passes, behind, newest_first, list_rows}
use event_driven_notificatio.Listing.Cursors.{
  Codec, build_list_params, check_batch_id, cursor_params, paginate, encode_cursor,
}
use event_driven_notificatio.Listing.Service.{
  ListNotificationsInput, continue_with, repo_list, query, list_filtered, status_filter,
  channel_filter, filter_of, clamp_limit, list_notifications, read_pages,
}
use event_driven_notificatio.Listing.Order.{
  IsNewestFirst, newest_first-IsNewestFirst, newest_first-perm,
}
use event_driven_notificatio.Listing.Selection.{
  select-newest_first, select-behind, select-All, get-All, newest_first-All, length-newest_first,
  length-select,
}
use event_driven_notificatio.Listing.Encoding.{
  IsCodec, IsNamed, cursor_params-encode_cursor, encoded_visible,
}

lift_ok {ℓ} :
    {A : Type ℓ} (r : Result A) (a : A) (e : Env) (w : World) → r ≡ ok a → lift r e w ≡ returns a w
lift_ok r a e w h = ap (λ (x : Result _). lift x e w) h

select_all : (rows : Table) → select (behind none) rows ≡ rows
unfolding behind
select_all [] = refl
select_all (r ∷ rows) = ap (λ xs. r ∷ xs) (select_all rows)

build_lem :
    (c : Codec) (f : ListFilter) (cursor : Text) (at : Option (ℕ × Text)) (limit : ℕ)
    → cursor_params c cursor ≡ ok at
    → check_batch_id c f.batch_id ≡ ok tt
    → build_list_params c f cursor limit
      ≡ ok (record { filter = f; cursor = at; row_limit = limit + 1 })
unfolding build_list_params
build_lem c f cursor at limit h k = rw (h, k)

-- An input whose filters are accepted, as these.
pub record Accepts (c : Codec) (input : ListNotificationsInput) (status : Option Status)
    (channel : Option Channel) : Type 0 where
  pub status_known : status_filter input.status ≡ ok status
  pub channel_known : channel_filter input.channel ≡ ok channel
  pub batch_known : check_batch_id c input.batch_id ≡ ok tt

paginate_last :
    (c : Codec) (rows : Table) (limit : ℕ)
    → length rows ≤ limit
    → paginate c (take (limit + 1) rows) limit ≡ ok (rows, [])
unfolding paginate
paginate_last c rows limit h = rw (take-all (limit + 1) rows (omega arith)) (ground arith)

paginate_more :
    (c : Codec) (rows : Table) (limit l : ℕ) (last : Notification)
    → limit ≡ suc l
    → suc l < length rows
    → get_elem? rows l ≡ some last
    → paginate c (take (limit + 1) rows) limit
      ≡ ok (take (suc l) rows, encode_cursor c last.created_at last.id)
unfolding paginate
paginate_more c rows limit l last is h k =
    let long : leb (length (take (suc (suc l)) rows)) (suc l) ≡ false =
      ground (arith, length-take (suc (suc l)) rows) in
    rw (is, add-one, long, get_elem?-take l rows, k, take-take-suc (suc l) rows)

clamp_positive : (n : ℕ) → (l : ℕ) × (clamp_limit n ≡ suc l)
unfolding clamp_limit
clamp_positive n = predecessor (if (n == 0) || ltb 100 n then 20 else n) (ground arith)
  where
    predecessor : (m : ℕ) → 1 ≤ m → (l : ℕ) × (m ≡ suc l)
    predecessor zero h = absurd (omega arith)
    predecessor (suc l) h = (l, refl)

module _ (c : Codec) (input : ListNotificationsInput) (status : Option Status)
    (channel : Option Channel) (e : Env) (w : World)
    (accepted : Accepts c input status channel) where
  abbrev filter : ListFilter
  filter = filter_of input status channel

  abbrev rows_at : Option (ℕ × Text) → Table
  rows_at at = newest_first (select (λ r. passes filter r && behind at r) w.rows)

  repo_list-calm :
      (cursor : Text) (at : Option (ℕ × Text)) (limit k : ℕ) (page : Table × Text)
      → cursor_params c cursor ≡ ok at
      → paginate c (take (limit + 1) (rows_at at)) limit ≡ ok page
      → repo_list c filter cursor limit (calm e) (record w { tick = k })
        ≡ returns page (record w { tick = k + 1 })
  unfolding repo_list query list_rows
  repo_list-calm cursor at limit k page here h =
      step (lift (build_list_params c filter cursor limit)) (query c limit) (calm e)
        (record w { tick = k })
        (lift_ok (build_list_params c filter cursor limit) _ (calm e) (record w { tick = k })
          (build_lem c filter cursor at limit here accepted.batch_known))
      ∙ lift_ok (paginate c (take (limit + 1) (rows_at at)) limit) page (calm e)
          (record w { tick = k + 1 }) h

  list_page :
      (cursor : Text) (at : Option (ℕ × Text)) (k : ℕ) (page : Table × Text)
      → cursor_params c cursor ≡ ok at
      → paginate c (take (clamp_limit input.limit + 1) (rows_at at)) (clamp_limit input.limit)
        ≡ ok page
      → list_notifications c (record input { cursor = cursor }) (calm e) (record w { tick = k })
        ≡ returns
            (record { notifications = page.0; next_cursor = page.1 })
            (record w { tick = k + 1 })
  unfolding list_notifications list_filtered
  list_page cursor at k page here h =
      step (lift (status_filter input.status))
        (λ s. lift (channel_filter input.channel) >>= λ t.
          list_filtered c (record input { cursor = cursor }) s t)
        (calm e) (record w { tick = k })
        (lift_ok (status_filter input.status) status (calm e) (record w { tick = k })
          accepted.status_known)
      ∙ step (lift (channel_filter input.channel))
          (λ t. list_filtered c (record input { cursor = cursor }) status t) (calm e)
          (record w { tick = k })
          (lift_ok (channel_filter input.channel) channel (calm e) (record w { tick = k })
            accepted.channel_known)
      ∙ step (repo_list c filter cursor (clamp_limit input.limit))
          (λ page. return (record { notifications = page.0; next_cursor = page.1 })) (calm e)
          (record w { tick = k }) (repo_list-calm cursor at (clamp_limit input.limit) k page here h)

  module _ (codec_laws : IsCodec c) (keyed : IsKeyed w.rows) (names : All (IsNamed c) w.rows)
      (l : ℕ) (is_limit : clamp_limit input.limit ≡ suc l) where
    abbrev sorted : Table
    sorted = newest_first (select (passes filter) w.rows)

    rows_at-eq : (at : Option (ℕ × Text)) → rows_at at ≡ select (behind at) sorted
    rows_at-eq at = sym (select-newest_first (behind at) (passes filter) w.rows keyed)

    rows_behind :
        (m k : ℕ) (last : Notification)
        → get_elem? (drop m sorted) k ≡ some last
        → rows_at (some (last.created_at, last.id)) ≡ drop (suc k) (drop m sorted)
    rows_behind m k last h =
        rows_at-eq (some (last.created_at, last.id))
        ∙ select-behind (m + k) sorted last
            (newest_first-IsNewestFirst (passes filter) w.rows keyed)
            (sym (get_elem?-drop m k sorted) ∙ h)
        ∙ rw (drop-drop m (suc k) sorted, add-suc m k)

    sorted-IsNamed : (k : ℕ) (last : Notification) → get_elem? sorted k ≡ some last → IsNamed c last
    sorted-IsNamed k last h =
        get-All (IsNamed c) k sorted last
          (newest_first-All (IsNamed c) (select (passes filter) w.rows)
            (select-All (IsNamed c) (passes filter) w.rows names))
          h

    -- A page that ends in a cursor, and what is read from there.
    turn_page :
        (fuel : ℕ) (cursor : Text) (at : Option (ℕ × Text)) (left after : Table)
        (last : Notification) (k k' : ℕ)
        → cursor_params c cursor ≡ ok at
        → paginate c (take (clamp_limit input.limit + 1) (rows_at at)) (clamp_limit input.limit)
          ≡ ok (take (suc l) left, encode_cursor c last.created_at last.id)
        → drop (suc l) left ≡ after
        → read_pages c fuel
            (record input { cursor = encode_cursor c last.created_at last.id })
            (calm e)
            (record w { tick = k + 1 })
          ≡ returns after (record w { tick = k' })
        → read_pages c
            (suc fuel)
            (record input { cursor = cursor })
            (calm e)
            (record w { tick = k })
          ≡ returns left (record w { tick = k' })
    unfolding read_pages
    turn_page fuel cursor at left after last k k' here page is rest =
        let next = encode_cursor c last.created_at last.id in
        step (list_notifications c (record input { cursor = cursor }))
          (continue_with (λ next. read_pages c fuel (record input { cursor = next }))) (calm e)
          (record w { tick = k }) (list_page cursor at k (take (suc l) left, next) here page)
        ∙ rw (encoded_visible c last.created_at last.id codec_laws) (
            step (read_pages c fuel (record input { cursor = next }))
              (λ more. return (take (suc l) left ++ more)) (calm e) (record w { tick = k + 1 })
              rest)
        ∙ ap (λ (xs : Table). returns (take (suc l) left ++ xs) (record w { tick = k' })) (sym is)
        ∙ ap (λ (xs : Table). returns xs (record w { tick = k' })) (take-drop (suc l) left)

    -- The pages from a cursor on hold what is left.
    read_from :
        (fuel : ℕ) (cursor : Text) (at : Option (ℕ × Text)) (m k : ℕ)
        → cursor_params c cursor ≡ ok at
        → rows_at at ≡ drop m sorted
        → length (drop m sorted) < fuel
        → (k' : ℕ) × (read_pages c fuel
              (record input { cursor = cursor })
              (calm e)
              (record w { tick = k })
            ≡ returns (drop m sorted) (record w { tick = k' }))
    unfolding read_pages
    read_from zero cursor at m k here left more = absurd (omega arith)
    read_from (suc fuel) cursor at m k here left more =
        elim (Bool-cases (leb (length (drop m sorted)) (clamp_limit input.limit))) [
          | inl fits ↦ (
            k + 1,
            step (list_notifications c (record input { cursor = cursor }))
                (continue_with (λ next. read_pages c fuel (record input { cursor = next })))
                (calm e) (record w { tick = k })
                (list_page cursor at k (drop m sorted, []) here
                  (rw left
                    (paginate_last c (drop m sorted) (clamp_limit input.limit) (ground arith)))),
          )
          | inr overflows ↦
              let long : suc l < length (drop m sorted) = ground (arith, is_limit) in
              let (last, is_last) = get_elem?-some l (drop m sorted) (omega arith) in
              let next = encode_cursor c last.created_at last.id in
              let page : paginate c (take (clamp_limit input.limit + 1) (rows_at at))
                    (clamp_limit input.limit)
                  ≡ ok (take (suc l) (drop m sorted), next) =
                rw left (
                  paginate_more c (drop m sorted) (clamp_limit input.limit) l last is_limit long
                    is_last) in
              let (k', rest) =
                read_from fuel next (some (last.created_at, last.id)) (m + suc l) (k + 1)
                  (cursor_params-encode_cursor c last codec_laws
                    (sorted-IsNamed (m + l) last (sym (get_elem?-drop m l sorted) ∙ is_last)))
                  (rows_behind m l last is_last ∙ drop-drop m (suc l) sorted)
                  (omega (
                    arith,
                    length-drop (suc l) (drop m sorted),
                    ap length (drop-drop m (suc l) sorted),
                  )) in
              (
                k',
                turn_page fuel cursor at (drop m sorted) (drop (m + suc l) sorted) last k k' here
                    page (drop-drop m (suc l) sorted) rest,
              )
        ]

pub read_pages_complete :
    (c : Codec) (input : ListNotificationsInput) (status : Option Status) (channel : Option Channel)
    (e : Env) (w : World) (fuel : ℕ)
    → IsCodec c
    → Accepts c input status channel
    → IsKeyed w.rows
    → All (IsNamed c) w.rows
    → input.cursor ≡ []
    → length w.rows < fuel
    → (rows : Table) × (k : ℕ) × (read_pages c fuel input (calm e) w
        ≡ returns rows (record w { tick = k }))
      × IsNewestFirst rows
      × Perm (select (passes (filter_of input status channel)) w.rows) rows
unfolding cursor_params
read_pages_complete c input status channel e w fuel laws accepted keyed names start enough =
    let rows = newest_first (select (passes (filter_of input status channel)) w.rows) in
    let (k, whole) =
      read_from c input status channel e w accepted laws keyed names (clamp_positive input.limit).0
        (clamp_positive input.limit).1 fuel [] none 0 w.tick refl
        (rows_at-eq c input status channel e w accepted laws keyed names
            (clamp_positive input.limit).0 (clamp_positive input.limit).1 none
          ∙ select_all rows)
        (omega (
          arith,
          length-newest_first (select (passes (filter_of input status channel)) w.rows),
          length-select (passes (filter_of input status channel)) w.rows,
        )) in
    (
      rows,
      k,
      subst
          (λ x.
            read_pages c fuel (record input { cursor = x }) (calm e) w
            ≡ returns rows (record w { tick = k }))
          (sym start) whole,
      newest_first-IsNewestFirst (passes (filter_of input status channel)) w.rows keyed,
      newest_first-perm (select (passes (filter_of input status channel)) w.rows),
    )
