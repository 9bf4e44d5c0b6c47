-- ===== src/SystemRoutes/Way.antt =====
-- The entries along the way from a chip to the Ethernet chip.
use spi_nnfront_end_common.Common.{
  ==_cases, zero, suc, ◌%◌, ◌≤◌, ◌<◌, ◌^◌, ◌⊎◌, ap, sym, ◌∙◌, ◌≢◌, All-imp, length, ℕ, ◌≡◌, refl,
  inl, inr, List, [], ◌∷◌, Result, ok, ◌==◌, ==_iff, ==_refl, Bool-cases, All, arith,
}
use spi_nnfront_end_common.Common.Numbers.{member}
use spi_nnfront_end_common.Router.Merge.{Appends, RoutingEntry}
use spi_nnfront_end_common.SystemRoutes.Tree.{Machine, Tree}
use spi_nnfront_end_common.SystemRoutes.Routed.{IsRouted, start, over, steps, steps_unique}
use spi_nnfront_end_common.SystemRoutes.Board.{IsBoardTree}
use spi_nnfront_end_common.SystemRoutes.Entries.{Tables, entry_for, add_way}
use spi_nnfront_end_common.SystemRoutes.Matching.{entry_for-Serves}
use spi_nnfront_end_common.SystemRoutes.Delivered.{
  Among, Among-append_last, entries_at, Arrives, hop, Keeps, Arrives-Keeps, IsFree, Added,
  add_routing_entry-Added, Added-Keeps, Added-length, Added-All,
}

-- The key is below the bound, and the mask fits in a word.
abbrev pub InRange : ℕ → RoutingEntry → Type 0
InRange hi x = (x.routing_entry_key < hi) × (x.mask < 2 ^ 32)

module _ (m : Machine) (root : ℕ) (tree : Tree) where
  -- The chips of the tree have no entries with keys from `hi` on, and masks that fit in a word.
  abbrev pub Below : ℕ → Tables → Type 0
  Below hi tables = (c : ℕ) → IsRouted m root tree c → All (InRange hi) (entries_at c tables)

  pub Below-IsFree :
      (key chip : ℕ) (tables : Tables)
      → Below key tables
      → IsRouted m root tree chip
      → IsFree key chip tables
  Below-IsFree key chip tables below p =
      All-imp (InRange key) (λ x. x.routing_entry_key ≢ key)
        (λ x h e. absurd (omega (arith, h.0, e))) (entries_at chip tables) (below chip p)

  pub Below-add :
      (key hi chip : ℕ) (ps ls : List ℕ) (tables tables' : Tables)
      → key < hi
      → Added chip (entry_for key ps ls) tables tables'
      → Below hi tables
      → Below hi tables'
  Below-add key hi chip ps ls tables tables' lt a below c p =
      Added-All (InRange hi) chip (entry_for key ps ls) tables tables' a (lt, omega arith) c
        (below c p)

module _ (m : Machine) (root : ℕ) (tree : Tree) (b : IsBoardTree m root tree) where
  -- The chips nearer to the Ethernet chip stay free.
  pub nearer-IsFree :
      (key chip : ℕ) (p : IsRouted m root tree chip) (e : RoutingEntry) (tables tables' : Tables)
      → Added chip e tables tables'
      → ((c : ℕ) (q : IsRouted m root tree c)
          → steps m root tree c q < steps m root tree chip p
          → IsFree key c tables)
      → (c : ℕ) (q : IsRouted m root tree c) → steps m root tree c q < steps m root tree chip p
      → IsFree key c tables'
  nearer-IsFree key chip p e tables tables' a free c q lt = elim (Bool-cases (c == chip)) [
    | inl same ↦ absurd (
        omega
          (arith, lt, steps_unique m root tree b.root_unset c chip q p ((==_iff c chip).0 same)))
    | inr other ↦ rw (a.elsewhere c other) (free c q lt)
  ]

  -- What a way does to the entries of a chip: nothing, or one more where it is nearer than its start.
  abbrev pub OneMore : (chip : ℕ) → IsRouted m root tree chip → Tables → Tables → ℕ → Type 0
  OneMore chip p tables tables' c =
      (entries_at c tables' ≡ entries_at c tables)
      ⊎ ((q : IsRouted m root tree c) × (steps m root tree c q < steps m root tree chip p)
          × (length (entries_at c tables') ≡ suc (length (entries_at c tables))))

  pub record WayAdded (key hi d proc chip : ℕ) (p : IsRouted m root tree chip)
      (tables tables' : Tables) : Type 0 where
    pub arrives : Arrives m tables' key root d proc
    pub keeps : Keeps tables tables'
    pub below : Below m root tree hi tables'
    pub one_more : (c : ℕ) → OneMore chip p tables tables' c

  OneMore-over :
      (key chip c : ℕ) (p : IsRouted m root tree chip) (q : IsRouted m root tree c)
      (e : RoutingEntry) (tables more tables' : Tables)
      → steps m root tree c q < steps m root tree chip p
      → Added c e tables more
      → ((c' : ℕ) → OneMore c q more tables' c')
      → (c' : ℕ) → OneMore chip p tables tables' c'
  OneMore-over key chip c p q e tables more tables' lt added rest c' = elim (rest c') [
    | inl same ↦ elim (==_cases c' c) [
      | inl (c_is, _) ↦ rw c_is (
          inr (
            q,
            lt,
            ap length (
                  ap (λ k. entries_at k tables') (sym c_is)
                  ∙ same
                  ∙ ap (λ k. entries_at k more) c_is)
                ∙ Added-length c e tables more added,
          ))
      | inr other ↦ inl (same ∙ added.elsewhere c' other)
    ]
    | inr (q', lt', longer) ↦ elim (Bool-cases (c' == c)) [
      | inl is_c ↦ absurd (
          omega
            (arith, lt', steps_unique m root tree b.root_unset c' c q' q ((==_iff c' c).0 is_c)))
      | inr other ↦
          inr (
            q',
            omega (arith, lt, lt'),
            longer ∙ ap (λ l. suc (length l)) (added.elsewhere c' other),
          )
    ]
  ]

module _ (add_entry : RoutingEntry → List RoutingEntry → Result (List RoutingEntry))
    (appends : Appends add_entry) (m : Machine) (root : ℕ) (tree : Tree)
    (b : IsBoardTree m root tree) where
  pub add_way_lem :
      (key hi d proc rounds chip : ℕ) (p : IsRouted m root tree chip) (tables : Tables)
      → key < hi
      → key % 8 ≡ 0
      → steps m root tree chip p ≤ rounds
      → ((c : ℕ) (q : IsRouted m root tree c)
          → steps m root tree c q < steps m root tree chip p
          → IsFree key c tables)
      → Arrives m tables key chip d proc
      → Below m root tree hi tables
      → (tables' : Tables) × (add_way add_entry rounds tree chip key tables ≡ ok tables')
        × WayAdded m root tree b key hi d proc chip p tables tables'
  unfolding add_way member
  add_way_lem key hi d proc zero chip start tables lt whole fuel free arrives below = (
    tables,
    refl,
    record {
      arrives = arrives;
      keeps = λ c e among. among;
      below = below;
      one_more = λ c. inl refl;
    },
  )
  add_way_lem key hi d proc (suc rounds) chip start tables lt whole fuel free arrives below = (
    tables,
    rw (b.root_unset, add_way) refl,
    record {
      arrives = arrives;
      keeps = λ c e among. among;
      below = below;
      one_more = λ c. inl refl;
    },
  )
  add_way_lem key hi d proc zero chip (over _ c l entry leads works before) tables lt whole fuel
        free arrives below =
      absurd (omega arith)
  add_way_lem key hi d proc (suc rounds) chip (over _ c l entry leads works before) tables lt whole
        fuel free arrives below =
      let e = entry_for key [] (l ∷ []) in
      let (more, ran, added) =
        add_routing_entry-Added add_entry appends c key [] (l ∷ []) tables
          (free c before (omega arith)) in
      let keeps = Added-Keeps c e tables more added in
      let among : Among e (entries_at c more) =
        rw (added.here) (Among-append_last e (entries_at c tables)) in
      let arrives' : Arrives m more key c d proc =
        hop c l chip d proc e among (entry_for-Serves key [] (l ∷ []) whole) (rw (==_refl l) refl)
          leads works (Arrives-Keeps m tables more key chip d proc keeps arrives) in
      let (tables', ran', rest) =
        add_way_lem key hi d proc rounds c before more lt whole (omega arith)
          (nearer-IsFree m root tree b key c before e tables more added
            (λ c' q lt'. free c' q (omega (arith, lt'))))
          arrives' (Below-add m root tree key hi c [] (l ∷ []) tables more lt added below) in
      (
        tables',
        rw (entry, ran, add_way) ran',
        record {
          arrives = rest.arrives;
          keeps = λ c' x among'. rest.keeps c' x (keeps c' x among');
          below = rest.below;
          one_more =
              OneMore-over m root tree b key chip c (over chip c l entry leads works before) before
                e tables more tables' (omega arith) added rest.one_more;
        },
      )
