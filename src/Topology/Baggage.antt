-- ===== src/Topology/Baggage.antt =====
-- pkg/synth/baggage.go: declared and inherited baggage.
use Prim.Native.String.{compare}
use Prim.Native.Nat.{Ordering}
use Prim.Native.String
use motel.Prelude.{
  ap, ◌∙◌, ◌≡◌, refl, String, str_eq, List, [], ◌∷◌, map, Option, none, some, Dict, lookup, insert,
  lookup-insert, if◌then◌else◌,
}
use motel.Platform.{Platform, KeyValue, string_value}

-- The loops `for k, v := range over { merged[k] = v }`.
unfoldable pub overlay : Dict String → Dict String → Dict String
overlay base [] = base
overlay base ((k, v) ∷ over) = overlay (insert k v base) over

unfoldable pub merge_declared_baggage : Dict String → Dict String → Dict String
unfolding overlay
merge_declared_baggage service operation = overlay (overlay [] service) operation

unfoldable pub overlay_baggage_map : Dict String → Dict String → Dict String
unfolding overlay
overlay_baggage_map inherited declared = overlay (overlay [] inherited) declared

insert_sorted : String → List String → List String
insert_sorted k [] = k ∷ []
insert_sorted k (j ∷ ks) =
    let rest = insert_sorted k ks in elim (compare k j) [ Ordering.gt ↦ j ∷ rest | _ ↦ k ∷ j ∷ ks ]

-- sort.Strings over the keys.
unfoldable pub sorted_keys {ℓ} : {V : Type ℓ} → Dict V → List String
unfolding insert_sorted
sorted_keys [] = []
sorted_keys ((k, v) ∷ m) = insert_sorted k (sorted_keys m)

-- `m[k]`, with Go's empty string for a missing key.
unfoldable pub value_at : Dict String → String → String
value_at m k = elim (lookup k m) [ some v ↦ v | none ↦ "" ]

-- The prefix baggageAttributePrefix and a key.
abbrev pub prefixed : String → String
prefixed k = String.◌++◌ "baggage." k

module _ (p : Platform) where
  open p use {fl, Bag, Member, new_member_raw, new_bag, members, member_key, member_value}
  open fl use {F}

  unfoldable pub baggage_attributes_from_map : Dict String → List (KeyValue F)
  unfolding sorted_keys value_at
  baggage_attributes_from_map m =
      map (λ k. record { key = prefixed k; value = string_value (value_at m k) }) (sorted_keys m)

  -- A member that cannot be made is skipped.
  make_members : Dict String → List String → List Member
  make_members m [] = []
  make_members m (k ∷ ks) =
      let rest = make_members m ks in
      elim (new_member_raw k (value_at m k)) [ some b ↦ b ∷ rest | none ↦ rest ]

  unfoldable pub build_baggage : Dict String → Bag
  unfolding make_members sorted_keys value_at
  build_baggage m = new_bag (make_members m (sorted_keys m))

  from_members : Dict String → List Member → Dict String
  from_members m [] = m
  from_members m (b ∷ bs) = from_members (insert (member_key b) (member_value b) m) bs

  unfoldable pub baggage_to_map : Bag → Dict String
  unfolding from_members
  baggage_to_map bag = from_members [] (members bag)

-- The value that a key has at the end of an overlay: the last entry for it, or the base's.
abbrev pub last_value : String → Dict String → Option String → Option String
last_value k [] v = v
last_value k ((j, w) ∷ m) v = last_value k m (if str_eq j k then some w else v)

lookup-overlay :
    (k : String) (base over : Dict String)
    → lookup k (overlay base over) ≡ last_value k over (lookup k base)
unfolding overlay
lookup-overlay k base [] = refl
lookup-overlay k base ((j, v) ∷ over) =
    lookup-overlay k (insert j v base) over ∙ ap (last_value k over) (lookup-insert base j k v)
