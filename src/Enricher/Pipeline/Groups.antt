-- ===== src/Enricher/Pipeline/Groups.antt =====
-- groupByNodeType of internal/enricher/enricher.go: a group has the services of its type, in order.
use mathlib.Core.List.{append-nil, append_assoc}
use firework.Base.{
  String, Bool, false, ◌≡◌, refl, ap, sym, ◌∙◌, ◌==◌, if◌then◌else◌, List, [], ◌∷◌, ◌++◌, map,
  if_ind, Bool-cases, All, filter_by, snoc, inl, inr, eq_iff, str_lt,
}
use firework.Base.Dict.{Dict, lookup, insert, items, append_at, items-append_at}
use firework.Base.Sort.{Pairwise, sort_stable, All-sort_stable}
use firework.Enricher.{ServiceSpec}
use firework.Enricher.Pipeline.{group_from, group_by_node_type}

abbrev pub has_type : String → ServiceSpec → Bool
has_type node_type s = s.node_type == node_type

items-append_there :
    (k j : String) (s : ServiceSpec) (groups : Dict (List ServiceSpec))
    → items (append_at k s groups) j ≡ (if k == j then snoc (items groups j) s else items groups j)
items-append_there k j s groups = items-append_at k j s groups ∙ elim (Bool-cases (k == j)) [
  | inl e ↦
      ap (λ (i : String). if k == j then snoc (items groups i) s else items groups j)
        ((eq_iff k j).0 e)
  | inr e ↦ rw e refl
]

items-group_from :
    (services : List ServiceSpec) (groups : Dict (List ServiceSpec)) (node_type : String)
    → items (group_from services groups) node_type
      ≡ items groups node_type ++ filter_by (has_type node_type) services
items-group_from [] groups node_type = sym (append-nil (items groups node_type))
items-group_from (s ∷ services) groups node_type =
    items-group_from services (append_at s.node_type s groups) node_type
    ∙ elim (Bool-cases (s.node_type == node_type)) [
      | inl e ↦
          rw (items-append_there s.node_type node_type s groups, filter_by, e)
            (append_assoc (items groups node_type) (s ∷ [])
              (filter_by (has_type node_type) services))
      | inr e ↦ rw (items-append_there s.node_type node_type s groups, filter_by, e) refl
    ]

pub items-group_by_node_type :
    (services : List ServiceSpec) (node_type : String)
    → items (group_by_node_type services) node_type ≡ filter_by (has_type node_type) services
unfolding lookup
items-group_by_node_type services node_type = items-group_from services [] node_type

-- The keys of a map after one was written.
All-keys-insert :
    {V : Type 0} (P : String → Type 0) (k : String) (v : V) (m : Dict V)
    → P k
    → All P (map (λ p. p.0) m)
    → All P (map (λ p. p.0) (insert k v m))
unfolding insert
All-keys-insert {V} P k v [] p h = (p, tt)
All-keys-insert {V} P k v ((j, w) ∷ m) p (q, h) =
    if_ind (λ (m' : Dict V). All P (map (λ p'. p'.0) m')) (j == k) (λ _. (p, h))
      (λ _. (q, All-keys-insert P k v m p h))

abbrev pub IsNamed : String → Type 0
IsNamed name = (name == "") ≡ false

keys-group_from :
    (services : List ServiceSpec) (groups : Dict (List ServiceSpec))
    → All (λ s. IsNamed s.node_type) services
    → All IsNamed (map (λ p. p.0) groups)
    → All IsNamed (map (λ p. p.0) (group_from services groups))
unfolding append_at
keys-group_from [] groups h k = k
keys-group_from (s ∷ services) groups (p, h) k =
    keys-group_from services (append_at s.node_type s groups) h
      (All-keys-insert IsNamed s.node_type (snoc (items groups s.node_type) s) groups p k)

-- The node types of services that have one, in their order.
pub node_types-IsNamed :
    (services : List ServiceSpec)
    → All (λ s. IsNamed s.node_type) services
    → All IsNamed (sort_stable str_lt (map (λ p. p.0) (group_by_node_type services)))
node_types-IsNamed services h =
    All-sort_stable str_lt IsNamed (map (λ p. p.0) (group_by_node_type services))
      (keys-group_from services [] h tt)

-- Services that are left out of a list change nothing for those that stay.
pub All-filter_by :
    (P : ServiceSpec → Type 0) (test : ServiceSpec → Bool) (services : List ServiceSpec)
    → All P services
    → All P (filter_by test services)
All-filter_by P test [] h = tt
All-filter_by P test (s ∷ services) (p, h) = elim (Bool-cases (test s)) [
  | inl e ↦ rw (e, All) (p, All-filter_by P test services h)
  | inr e ↦ rw (e, All) (All-filter_by P test services h)
]

pub Pairwise-filter_by :
    (R : ServiceSpec → ServiceSpec → Type 0) (test : ServiceSpec → Bool)
    (services : List ServiceSpec)
    → Pairwise R services
    → Pairwise R (filter_by test services)
Pairwise-filter_by R test [] h = tt
Pairwise-filter_by R test (s ∷ services) (p, h) = elim (Bool-cases (test s)) [
  | inl e ↦
      rw (e, Pairwise) (All-filter_by (R s) test services p, Pairwise-filter_by R test services h)
  | inr e ↦ rw (e, Pairwise) (Pairwise-filter_by R test services h)
]
