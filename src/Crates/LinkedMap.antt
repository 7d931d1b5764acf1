-- ===== src/Crates/LinkedMap.antt =====
-- `hashlink::LinkedHashMap`: a map that keeps the order in which its keys came in last.
use factorio_multiplayer_cac.Common.{ℕ, ◌≡◌, Option, none, some, List, [], ◌∷◌, ◌++◌, refl}
use factorio_multiplayer_cac.Common.HashMap.{HashMap, get, remove, bytes_key}

-- The keys are lists of bytes and the values too. `entries` is what `iter` gives; `insert` and
-- `pop_front` give the map behind what they return.
pub record LinkedHashMap : Type 1 where
  pub Map : Type 0
  pub new : Map
  pub insert : List ℕ → List ℕ → Map → Option (List ℕ) × Map
  pub pop_front : Map → Option ((List ℕ × List ℕ) × Map)
  pub lookup : List ℕ → Map → Option (List ℕ)
  pub entries : Map → HashMap (List ℕ) (List ℕ)
  pub entries_new : entries new ≡ []
  pub insert_old : (k v : List ℕ) (m : Map) → (insert k v m).0 ≡ get k (entries m)
  pub entries_insert :
      (k v : List ℕ) (m : Map) → entries (insert k v m).1 ≡ remove k (entries m) ++ (k, v) ∷ []
  pub pop_front_nil : (m : Map) → entries m ≡ [] → pop_front m ≡ none
  pub pop_front_cons :
      (m : Map) (kv : List ℕ × List ℕ) (rest : HashMap (List ℕ) (List ℕ))
      → entries m ≡ kv ∷ rest
      → (m' : Map) × (pop_front m ≡ some (kv, m')) × (entries m' ≡ rest)
  pub lookup_lem : (k : List ℕ) (m : Map) → lookup k m ≡ get k (entries m)

-- The list itself is such a map.
abbrev pub pop_list :
    HashMap (List ℕ) (List ℕ) → Option ((List ℕ × List ℕ) × HashMap (List ℕ) (List ℕ))
pop_list [] = none
pop_list (kv ∷ rest) = some (kv, rest)

abbrev pub list_map : LinkedHashMap
list_map = record {
  Map = HashMap (List ℕ) (List ℕ);
  new = [];
  insert = λ k v m. (get k m, remove k m ++ (k, v) ∷ []);
  pop_front = pop_list;
  lookup = get;
  entries = λ m. m;
  entries_new = refl;
  insert_old = λ k v m. refl;
  entries_insert = λ k v m. refl;
  pop_front_nil = λ m e. rw e refl;
  pop_front_cons = λ m kv rest e. (rest, rw e refl, refl);
  lookup_lem = λ k m. refl;
}
