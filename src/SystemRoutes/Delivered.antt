-- ===== src/SystemRoutes/Delivered.antt =====
-- The entries along the tree deliver what is sent with a chip's key to the chip's monitor.
use spi_nnfront_end_common.Common.{
  lengths, ==_cases, suc, length, ℕ, ◌≡◌, ◌≢◌, refl, sym, ap, ◌⊎◌, inl, inr, true, false, some,
  List, [], ◌∷◌, ◌++◌, Result, ok, ◌==◌, All, All-append,
}
use spi_nnfront_end_common.Common.Maps.{lookup-assign_other, lookup-assign_same, lookup, assign}
use spi_nnfront_end_common.Common.Numbers.{member}
use spi_nnfront_end_common.Router.Bitfields.{or_empty}
use spi_nnfront_end_common.Router.Merge.{Appends, RoutingEntry}
use spi_nnfront_end_common.SystemRoutes.Tree.{Machine}
use spi_nnfront_end_common.SystemRoutes.Matching.{Serves}
use spi_nnfront_end_common.SystemRoutes.Entries.{Tables, entry_for, add_routing_entry}

abbrev pub Among : RoutingEntry → List RoutingEntry → Type 0
Among e [] = ⊥
Among e (x ∷ xs) = (x ≡ e) ⊎ Among e xs

Among-append_left : (e : RoutingEntry) (xs ys : List RoutingEntry) → Among e xs → Among e (xs ++ ys)
Among-append_left e [] ys h = absurd h
Among-append_left e (x ∷ xs) ys (inl same) = inl same
Among-append_left e (x ∷ xs) ys (inr later) = inr (Among-append_left e xs ys later)

pub Among-append_last : (e : RoutingEntry) (xs : List RoutingEntry) → Among e (xs ++ e ∷ [])
Among-append_last e [] = inl refl
Among-append_last e (x ∷ xs) = inr (Among-append_last e xs)

-- The entries of the chip.
abbrev pub entries_at : ℕ → Tables → List RoutingEntry
entries_at chip tables = or_empty (lookup chip tables)

-- Packets with the key, and with the seven keys that follow it, go from one chip over links to a
-- processor of another: on each chip an entry matches them and names the link or the processor.
pub data Arrives (m : Machine) (tables : Tables) (key : ℕ) : ℕ → ℕ → ℕ → Type 0 where
  local :
      (chip p : ℕ) (e : RoutingEntry)
      → Among e (entries_at chip tables)
      → Serves key e
      → member p e.processor_ids ≡ true
      → Arrives m tables key chip chip p
  hop :
      (chip l next d p : ℕ) (e : RoutingEntry)
      → Among e (entries_at chip tables)
      → Serves key e
      → member l e.link_ids ≡ true
      → m.destination chip l ≡ some next
      → m.is_link chip l ≡ true
      → Arrives m tables key next d p
      → Arrives m tables key chip d p

-- No entry of the chip is lost.
abbrev pub Keeps : Tables → Tables → Type 0
Keeps tables tables' =
    (c : ℕ) (e : RoutingEntry) → Among e (entries_at c tables) → Among e (entries_at c tables')

pub Arrives-Keeps :
    (m : Machine) (tables tables' : Tables) (key c d p : ℕ)
    → Keeps tables tables'
    → Arrives m tables key c d p
    → Arrives m tables' key c d p
Arrives-Keeps m tables tables' key c d p keeps (local _ _ e among same has) =
    local c p e (keeps c e among) same has
Arrives-Keeps m tables tables' key c d p keeps
      (hop _ l next _ _ e among same has leads works rest) =
    hop c l next d p e (keeps c e among) same has leads works
      (Arrives-Keeps m tables tables' key next d p keeps rest)

abbrev pub IsFree : ℕ → ℕ → Tables → Type 0
IsFree key chip tables = All (λ x. x.routing_entry_key ≢ key) (entries_at chip tables)

pub record Added (chip : ℕ) (e : RoutingEntry) (tables tables' : Tables) : Type 0 where
  pub here : entries_at chip tables' ≡ entries_at chip tables ++ e ∷ []
  pub elsewhere : (c : ℕ) → (c == chip) ≡ false → entries_at c tables' ≡ entries_at c tables

pub Added-Keeps :
    (chip : ℕ) (e : RoutingEntry) (tables tables' : Tables)
    → Added chip e tables tables'
    → Keeps tables tables'
Added-Keeps chip e tables tables' a c x among = elim (==_cases c chip) [
  | inl (c_is, _) ↦
      let among' : Among x (entries_at chip tables) = rw (sym c_is) among in
      rw (c_is, a.here) (Among-append_left x (entries_at chip tables) (e ∷ []) among')
  | inr other ↦ rw (a.elsewhere c other) among
]

pub Added-length :
    (chip : ℕ) (e : RoutingEntry) (tables tables' : Tables)
    → Added chip e tables tables'
    → length (entries_at chip tables') ≡ suc (length (entries_at chip tables))
Added-length chip e tables tables' a = rw (a.here) (grind lengths)

pub Added-All :
    (P : RoutingEntry → Type 0) (chip : ℕ) (e : RoutingEntry) (tables tables' : Tables)
    → Added chip e tables tables'
    → P e
    → (c : ℕ) → All P (entries_at c tables)
    → All P (entries_at c tables')
Added-All P chip e tables tables' a holds c all = elim (==_cases c chip) [
  | inl (c_is, _) ↦
      let all' : All P (entries_at chip tables) = rw (sym c_is) all in
      rw (c_is, a.here) (All-append P (entries_at chip tables) (e ∷ []) all' (holds, tt))
  | inr other ↦ rw (a.elsewhere c other) all
]

module _ (add_entry : RoutingEntry → List RoutingEntry → Result (List RoutingEntry))
    (appends : Appends add_entry) where
  pub add_routing_entry-Added :
      (chip key : ℕ) (ps ls : List ℕ) (tables : Tables)
      → IsFree key chip tables
      → (tables' : Tables) × (add_routing_entry add_entry chip key ps ls tables ≡ ok tables')
        × Added chip (entry_for key ps ls) tables tables'
  unfolding add_routing_entry
  add_routing_entry-Added chip key ps ls tables free =
      let e = entry_for key ps ls in
      let table = entries_at chip tables ++ e ∷ [] in
      (
        assign chip table tables,
        rw (appends e (entries_at chip tables) free) refl,
        record {
          here =
              let at_chip : lookup chip (assign chip table tables) ≡ some table =
                lookup-assign_same chip table tables in
              ap or_empty at_chip;
          elsewhere = λ c other.
              let at_c : lookup c (assign chip table tables) ≡ lookup c tables =
                lookup-assign_other c chip table tables other in
              ap or_empty at_c;
        },
      )
