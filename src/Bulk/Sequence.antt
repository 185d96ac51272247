-- ===== src/Bulk/Sequence.antt =====
-- core/bulk_runner.py, `iter_publish_sync`, and sync/broker.py, `publish_many`. The broker's
-- `publish` is a parameter, with what it changes passed along, and so is the clock, by the index of
-- the input at which it is read.
use rabbitkit.Prelude.{
  ℕ, suc, ◌≤◌, ◌<◌, ◌≡◌, refl, ap, Bool, true, false, not, Option, none, some, List, [], ◌∷◌, arith,
  if◌then◌else◌, ltb, leb, length, map, codes, Text, lt→ltb, if_cases, zero, ◌∙◌, subst, sym,
}
use rabbitkit.Prelude.Count.{count_from, sorted, sorted-count_from, map-sort_by}
use rabbitkit.Prelude.Sort.{sort_by}
use rabbitkit.Bulk.Preparation.{Input, prepare}
use rabbitkit.Bulk.{Fault, Item, verdict, invalid, bulk_not_sent, input_ordered, indices_ascend}
use rabbitkit.Bulk.Run.{Options, Ended, returns, raises, verdict_of, item}

-- How `publish_many` ends: the three errors, the ValueError of a result whose items are out of order,
-- or a result.
pub data Ending : Type 0 where
  too_many not_started came_through disordered : Ending
  result : List Item → Ending

module _ {W : Type 0} (publish_fn : Input → W → Ended × W) (clock : ℕ → ℕ) where
  abbrev pub past : Option ℕ → ℕ → Bool
  past none now = false
  past (some deadline) now = leb deadline now

  -- `except Exception` does not catch it.
  unfoldable pub comes_through : Ended → Bool
  comes_through (returns o) = false
  comes_through (raises exc) = not exc.is_exception

  -- The item, or `none` where an exception comes through.
  unfoldable pub attempt : ℕ → Input → W → Option Item × W
  unfolding verdict_of comes_through
  attempt index raw w =
      let (answer, w') = publish_fn raw w in
      (if comes_through answer then none else some (item index (verdict_of answer)), w')

  unfoldable pub publish_one : Options → Option ℕ → ℕ → Input → Option Text → W → Option Item × W
  unfolding attempt
  publish_one c deadline index raw (some reason) w = (some (item index (verdict invalid reason)), w)
  publish_one c deadline index raw none w =
      if past deadline (clock index)
      then (some (item index (verdict bulk_not_sent (codes "overall_timeout"))), w)
      else attempt index raw w

  -- What follows an input is published unless an exception came through.
  abbrev pub after_one : W → Option Item → List Item × Bool × W → List Item × Bool × W
  after_one w none rest = ([], true, w)
  after_one w (some first) (items, broken, w') = (first ∷ items, broken, w')

  -- The items, and whether an exception came through after them.
  unfoldable pub iter_publish_sync : Options → Option ℕ → ℕ → List Input → W → List Item × Bool × W
  unfolding publish_one prepare
  iter_publish_sync c deadline index [] w = ([], false, w)
  iter_publish_sync c deadline index (raw ∷ raws) w =
      let reason = prepare c.max_message_bytes c.max_buffer_bytes raw in
      let (o, w') = publish_one c deadline index raw reason w in
      let rest = iter_publish_sync c deadline (suc index) raws w' in after_one w' o rest

  unfoldable pub bulk_result : List Item → Ending
  unfolding input_ordered
  bulk_result items = if input_ordered items then result items else disordered

  unfoldable pub publish_many : Bool → Options → ℕ → Option ℕ → List Input → W → Ending × W
  unfolding iter_publish_sync bulk_result sort_by
  publish_many started c max_items deadline raws w =
      if ltb max_items (length raws)
      then (too_many, w)
      else if not started
      then (not_started, w)
      else let (items, broken, w') = iter_publish_sync c deadline 0 raws w in
        (if broken then came_through else bulk_result (sort_by (λ x. x.index) items), w')

  -- The broker's `publish` raises nothing but an Exception.
  abbrev pub RaisesExceptions : Type 0
  RaisesExceptions =
      (raw : Input) (w : W) (exc : Fault)
      → (publish_fn raw w).0 ≡ raises exc
      → exc.is_exception ≡ true

  comes_through-false :
      (answer : Ended)
      → ((exc : Fault) → answer ≡ raises exc → exc.is_exception ≡ true)
      → comes_through answer ≡ false
  unfolding comes_through
  comes_through-false (returns o) h = refl
  comes_through-false (raises exc) h = ground (arith, h exc refl)

  abbrev Indexed : ℕ → Option Item → Type 0
  Indexed index o = (x : Item) × (o ≡ some x) × (x.index ≡ index)

  publish_one-Indexed :
      (c : Options) (deadline : Option ℕ) (index : ℕ) (raw : Input) (reason : Option Text) (w : W)
      → RaisesExceptions
      → Indexed index (publish_one c deadline index raw reason w).0
  unfolding publish_one attempt
  publish_one-Indexed c deadline index raw (some reason) w h =
      (item index (verdict invalid reason), refl, refl)
  publish_one-Indexed c deadline index raw none w h =
      let late = item index (verdict bulk_not_sent (codes "overall_timeout")) in
      let (answer, w') = publish_fn raw w in
      let caught : comes_through answer ≡ false = comes_through-false answer (h raw w) in
      if_cases (λ (p : Option Item × W). Indexed index p.0) (past deadline (clock index))
        (some late, w) (attempt index raw w) (λ e. (late, refl, refl))
        (λ e. (item index (verdict_of answer), rw caught refl, refl))

  -- What a bulk publish leaves that nothing came through.
  abbrev Whole : ℕ → ℕ → List Item × Bool × W → Type 0
  Whole index n (items, broken, w) =
      (map (λ x. x.index) items ≡ count_from index n) × (broken ≡ false)

  iter_publish_sync-Whole :
      (c : Options) (deadline : Option ℕ) (index : ℕ) (raws : List Input) (w : W)
      → RaisesExceptions
      → Whole index (length raws) (iter_publish_sync c deadline index raws w)
  unfolding iter_publish_sync
  iter_publish_sync-Whole c deadline index [] w h = (refl, refl)
  iter_publish_sync-Whole c deadline index (raw ∷ raws) w h =
      let reason = prepare c.max_message_bytes c.max_buffer_bytes raw in
      let (x, there, same) = publish_one-Indexed c deadline index raw reason w h in
      let w' = (publish_one c deadline index raw reason w).1 in
      let (indexes, whole) = iter_publish_sync-Whole c deadline (suc index) raws w' h in
      let rest = iter_publish_sync c deadline (suc index) raws w' in
      let all : map (λ y. y.index) (x ∷ rest.0) ≡ count_from index (suc (length raws)) =
        rw same (ap (◌∷◌ index) indexes) in
      subst (λ o. Whole index (suc (length raws)) (after_one w' o rest)) (sym there) (all, whole)

  indices_ascend-count_from : (n k : ℕ) → indices_ascend (count_from n k) ≡ true
  unfolding indices_ascend
  indices_ascend-count_from n zero = refl
  indices_ascend-count_from n (suc zero) = refl
  indices_ascend-count_from n (suc (suc k)) =
      ground (arith, indices_ascend-count_from (suc n) (suc k))

  -- Where `publish` raises nothing but an Exception: `publish_many` on a started broker, of no more
  -- inputs than `max_items`, returns a result, and its items are one for each input, in the order of
  -- the inputs, whatever `publish` answers or raises and whenever the deadline passes. With more
  -- inputs, or on a broker that is not started, it fails and nothing is published.
  pub publish_many_complete :
      (c : Options) (max_items : ℕ) (deadline : Option ℕ) (raws : List Input) (w : W)
      → RaisesExceptions
      → (length raws ≤ max_items
          → (items : List Item) × ((publish_many true c max_items deadline raws w).0 ≡ result items)
            × (map (λ x. x.index) items ≡ count_from 0 (length raws)))
        × (length raws ≤ max_items
            → publish_many false c max_items deadline raws w ≡ (not_started, w))
        × ((started : Bool)
            → max_items < length raws
            → publish_many started c max_items deadline raws w ≡ (too_many, w))
  unfolding publish_many bulk_result input_ordered
  publish_many_complete c max_items deadline raws w h =
      let items = sort_by (λ x. x.index) (iter_publish_sync c deadline 0 raws w).0 in
      let (counted, whole) = iter_publish_sync-Whole c deadline 0 raws w h in
      let indexes : map (λ x. x.index) items ≡ count_from 0 (length raws) =
        map-sort_by (λ x. x.index) (iter_publish_sync c deadline 0 raws w).0
        ∙ ap sorted counted
        ∙ sorted-count_from 0 (length raws) in
      let fits : indices_ascend (map (λ x. x.index) items) ≡ true =
        subst (λ is. indices_ascend is ≡ true) (sym indexes)
          (indices_ascend-count_from 0 (length raws)) in
      (
        λ few.
            (let enough : ltb max_items (length raws) ≡ false = ground arith in
              (items, rw (enough, whole, fits) refl, indexes)),
        λ few. (let enough : ltb max_items (length raws) ≡ false = ground arith in rw enough refl),
        λ started many. rw (lt→ltb max_items (length raws) many) refl,
      )
