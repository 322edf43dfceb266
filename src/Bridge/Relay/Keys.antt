-- ===== src/Bridge/Relay/Keys.antt =====
-- `sort_keys=True` of Python's JSON writer, as src/fh_agent/bridge/snapshot_relay.py uses it: the keys of every object, at
-- any depth, in the order of texts.
use Prim.Native.Nat.{Ordering}
use Prim.Native.String.{compare}
use package.text.Mathlib.TextPositions.{compare_refl}
use autonomous_game_agent.Prelude.{
  String, Bool, true, false, Option, none, some, ◌≡◌, refl, sym, ap, ◌∙◌, str_eq, eq_iff, arith,
  if◌then◌else◌,
}
use autonomous_game_agent.Planner.Json.{
  Json, text, atom, array, object, Items, no_items, item, Entries, no_entries, entry,
}
use autonomous_game_agent.Planner.Json.Dict.{get}

-- an entry before another one, of which the first has key `k`, by the order of the keys
place : Ordering → String → Json → String → Json → Entries → Entries → Entries
place Ordering.gt k v j u kvs rest = entry j u rest
place Ordering.lt k v j u kvs rest = entry k v (entry j u kvs)
place Ordering.eq k v j u kvs rest = entry k v (entry j u kvs)

unfoldable insert_entry : String → Json → Entries → Entries
unfolding place
insert_entry k v no_entries = entry k v no_entries
insert_entry k v (entry j u kvs) = place (compare k j) k v j u kvs (insert_entry k v kvs)

unfoldable mutual
  unfolding insert_entry

  pub sort_keys : Json → Json
  sort_keys (text t) = text t
  sort_keys (atom a) = atom a
  sort_keys (array vs) = array (sort_items vs)
  sort_keys (object kvs) = object (sort_entries kvs)

  pub sort_items : Items → Items
  sort_items no_items = no_items
  sort_items (item v vs) = item (sort_keys v) (sort_items vs)

  pub sort_entries : Entries → Entries
  sort_entries no_entries = no_entries
  sort_entries (entry k v kvs) = insert_entry k (sort_keys v) (sort_entries kvs)

not_before_itself : (k j : String) → compare k j ≡ Ordering.gt → str_eq k j ≡ true → ⊥
not_before_itself k j gt e =
    let same : k ≡ j = (eq_iff k j).0 e in
    let at_self : compare k j ≡ Ordering.eq = ap (λ x. compare k x) (sym same) ∙ compare_refl k in
    cc

get-insert_entry :
    (key k : String) (v : Json) (kvs : Entries)
    → get key (insert_entry k v kvs) ≡ (if str_eq k key then some v else get key kvs)
unfolding insert_entry get
get-insert_entry key k v no_entries = refl
get-insert_entry key k v (entry j u kvs) = at (compare k j) (get-insert_entry key k v kvs) refl
  where
    at :
        (o : Ordering)
        → get key (insert_entry k v kvs) ≡ (if str_eq k key then some v else get key kvs)
        → compare k j ≡ o
        → get key (place o k v j u kvs (insert_entry k v kvs))
          ≡ (if str_eq k key then some v else if str_eq j key then some u else get key kvs)
    at Ordering.lt rest e = refl
    at Ordering.eq rest e = refl
    at Ordering.gt rest e =
        ground (arith, rest, not_before_itself k j e, eq_iff k key, eq_iff j key, eq_iff k j)

abbrev pub sorted_field : Option Json → Option Json
unfolding sort_keys
sorted_field none = none
sorted_field (some v) = some (sort_keys v)

-- A field of the sorted object is that of the object, sorted.
pub get-sort_entries :
    (key : String) (kvs : Entries) → get key (sort_entries kvs) ≡ sorted_field (get key kvs)
unfolding sort_keys get
get-sort_entries key no_entries = refl
get-sort_entries key (entry k v kvs) =
    get-insert_entry key k (sort_keys v) (sort_entries kvs)
    ∙ branch (str_eq k key) (get-sort_entries key kvs)
  where
    branch :
        (b : Bool)
        → get key (sort_entries kvs) ≡ sorted_field (get key kvs)
        → (if b then some (sort_keys v) else get key (sort_entries kvs))
          ≡ sorted_field (if b then some v else get key kvs)
    branch true rest = refl
    branch false rest = rest
