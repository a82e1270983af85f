-- ===== src/Config/Build/Names.antt =====
-- pkg/synth/topology.go, BuildTopology: the maps of names that the first pass makes, and the
-- references that they resolve.
use motel.Prelude.{
  ℕ, suc, ◌+◌, ◌≡◌, refl, sym, ap, ◌∙◌, inl, inr, false, String, str_eq, eq_iff, List, [], ◌∷◌,
  Option, some, Dict, insert, lookup, lookup-insert, All, All-map, Any, arith, Bool-cases, length,
  get_or, map, subst,
}
use motel.Prelude.Results.{ok, >>=-ok, collect}
use motel.Platform.{Platform}
use motel.Topology.Types.{Service, Operation, Topology}
use motel.Config.{contains_dot, resolve_ref}
use motel.Config.Refs.{resolve_ref-append}
use motel.Config.Types.{Library, OperationConfig, ServiceConfig}
use motel.Config.Tables.{ref_of}
use motel.Config.Build.{name_table, resolve_metric, resolve_log}
use motel.Config.Build.Known.{NamedIn, Named}
use motel.Config.Build.Passes.{
  operation_names, service_names, build_operation, build_service, build_services, Nodes, no_service,
  topology_of,
}

-- A name that has a number keeps one.
name_table-keeps :
    (first : ℕ) (names : List String) (table : Dict ℕ) (name : String) (j : ℕ)
    → lookup name table ≡ some j
    → (i : ℕ) × (lookup name (name_table first names table) ≡ some i)
unfolding name_table
name_table-keeps first [] table name j h = (j, h)
name_table-keeps first (n ∷ names) table name j h = elim (Bool-cases (str_eq n name)) [
  | inl same ↦
      name_table-keeps (suc first) names (insert n first table) name first
        (lookup-insert table n name first ∙ rw same refl)
  | inr differ ↦
      name_table-keeps (suc first) names (insert n first table) name j
        (lookup-insert table n name first ∙ rw differ h)
]

-- A name of the list has a number.
name_table-has :
    (first : ℕ) (names : List String) (table : Dict ℕ) (name : String)
    → Any (λ n. n ≡ name) names
    → (i : ℕ) × (lookup name (name_table first names table) ≡ some i)
unfolding name_table
name_table-has first [] table name h = elim h [ ]
name_table-has first (n ∷ names) table name (inl same) =
    name_table-keeps (suc first) names (insert n first table) name first
      (lookup-insert table n name first ∙ rw ((eq_iff n name).1 same) refl)
name_table-has first (n ∷ names) table name (inr later) =
    name_table-has (suc first) names (insert n first table) name later

-- A name that is not in the list is looked up in the table before.
name_table-other :
    (first : ℕ) (names : List String) (table : Dict ℕ) (name : String)
    → All (λ n. str_eq name n ≡ false) names
    → lookup name (name_table first names table) ≡ lookup name table
unfolding name_table
name_table-other first [] table name h = refl
name_table-other first (n ∷ names) table name h =
    let other : str_eq n name ≡ false = ground (arith, eq_iff n name, eq_iff name n, h) in
    name_table-other (suc first) names (insert n first table) name h.1
    ∙ lookup-insert table n name first
    ∙ rw other refl

module _ (p : Platform) (lib : Library p) where
  open lib use {parse_duration}

  -- The names of the services are different.
  abbrev pub AreDistinct : List (ServiceConfig p lib) → Type 0
  AreDistinct [] = Unit
  AreDistinct (svc ∷ svcs) =
      All (λ (other : ServiceConfig p lib). str_eq svc.name other.name ≡ false) svcs
      × AreDistinct svcs

  -- The number of a service, counted from the first, is its place in the list, and its operations are
  -- numbered by their names.
  pub IsAt : ℕ → Dict ℕ → List (Service p) → ServiceConfig p lib → Type 0
  IsAt number table services svc =
      (i : ℕ) × (first : ℕ) × (lookup svc.name table ≡ some (number + i))
      × ((get_or services i (no_service p lib)).operations
          ≡ name_table first (operation_names p lib svc) [])

  module _ (resolver : Option (String → Option (Dict p.Gen))) where
    build_service-names :
        (number first : ℕ) (svc : ServiceConfig p lib) (built : Service p × List (Operation p))
        → build_service p lib resolver number first svc ≡ ok built
        → built.0.operations ≡ name_table first (operation_names p lib svc) []
    unfolding build_service
    build_service-names number first svc built h =
        let (_, _, h1) = >>=-ok (collect (resolve_metric p lib) svc.metrics) _ h in
        let (_, _, h2) = >>=-ok (collect (resolve_log p lib) svc.logs) _ h1 in
        let (_, _, h3) =
          >>=-ok (collect (build_operation p lib resolver number svc) svc.operations) _ h2 in
        cc

    named :
        (name : String) (svcs : List (ServiceConfig p lib))
        → All (λ (other : ServiceConfig p lib). str_eq name other.name ≡ false) svcs
        → All (λ n. str_eq name n ≡ false) (service_names p lib svcs)
    named name [] h = tt
    named name (svc ∷ svcs) h = (h.0, named name svcs h.1)

    pub build_services-IsAt :
        (number first : ℕ) (svcs : List (ServiceConfig p lib)) (table : Dict ℕ)
        (nodes : Nodes p lib)
        → AreDistinct svcs
        → build_services p lib resolver number first svcs ≡ ok nodes
        → All (IsAt number (name_table number (service_names p lib svcs) table) nodes.services) svcs
    unfolding build_services name_table IsAt
    build_services-IsAt number first [] table nodes d h = tt
    build_services-IsAt number first (svc ∷ svcs) table nodes d h =
        let (built, b, h1) = >>=-ok (build_service p lib resolver number first svc) _ h in
        let (rest, r, h2) =
          >>=-ok (build_services p lib resolver (suc number) (first + length svc.operations) svcs) _
            h1 in
        let services : nodes.services ≡ built.0 ∷ rest.services = cc in
        let later =
          build_services-IsAt (suc number) (first + length svc.operations) svcs
            (insert svc.name number table) rest d.1 r in
        let kept : lookup svc.name
              (name_table (suc number) (service_names p lib svcs) (insert svc.name number table))
            ≡ some number =
          name_table-other (suc number) (service_names p lib svcs) (insert svc.name number table)
            svc.name (named svc.name svcs d.0)
          ∙ lookup-insert table svc.name svc.name number
          ∙ rw ((eq_iff svc.name svc.name).1 refl) refl in
        let placed : Dict ℕ = name_table number (service_names p lib (svc ∷ svcs)) table in
        subst (λ (ss : List (Service p)). All (IsAt number placed ss) (svc ∷ svcs)) (sym services)
          (
            (0, first, kept ∙ ap some (omega arith), build_service-names number first svc built b),
            All-map
                (λ (other : ServiceConfig p lib)
                    (a : IsAt (suc number)
                      (name_table (suc number) (service_names p lib svcs)
                        (insert svc.name number table))
                      rest.services other).
                  let (i, f, at_i, names) = a in (suc i, f, at_i ∙ ap some (omega arith), names))
                svcs later,
          )

  -- The name of an operation, from its reference.
  operation_named :
      (service ref : String) (ops : List (OperationConfig p lib))
      → NamedIn p lib service ops ref
      → (name : String) × (ref_of service name ≡ ref)
        × Any (λ n. n ≡ name) (map (λ (op : OperationConfig p lib). op.name) ops)
  operation_named service ref [] h = elim h [ ]
  operation_named service ref (op ∷ ops) (inl here) = (op.name, here, inl refl)
  operation_named service ref (op ∷ ops) (inr later) =
      let (name, same, found) = operation_named service ref ops later in (name, same, inr found)

  module _ (topo : Topology p) where
    -- A service of the configuration is found, and so are its operations.
    unfoldable pub IsFound : ServiceConfig p lib → Type 0
    IsFound svc =
        (i : ℕ) × (first : ℕ) × (lookup svc.name topo.services ≡ some i)
        × ((topo.service i).operations ≡ name_table first (operation_names p lib svc) [])

    pub IsFound-operation :
        (svc : ServiceConfig p lib) (name : String)
        → IsFound svc
        → Any (λ n. n ≡ name) (operation_names p lib svc)
        → (i : ℕ) × (op : ℕ) × (lookup svc.name topo.services ≡ some i)
          × (lookup name (topo.service i).operations ≡ some op)
    unfolding IsFound
    IsFound-operation svc name (i, first, service, names) h =
        let (op, found) = name_table-has first (operation_names p lib svc) [] name h in
        (i, op, service, ap (lookup name) names ∙ found)

    -- The reference of an operation of the configuration resolves.
    pub Named-resolves :
        (svcs : List (ServiceConfig p lib)) (ref : String)
        → All IsFound svcs
        → All (λ (svc : ServiceConfig p lib). contains_dot svc.name ≡ false) svcs
        → Named p lib svcs ref
        → (op : ℕ) × (resolve_ref p parse_duration topo ref ≡ some op)
    Named-resolves [] ref f d h = elim h [ ]
    Named-resolves (svc ∷ svcs) ref f d (inr later) = Named-resolves svcs ref f.1 d.1 later
    Named-resolves (svc ∷ svcs) ref f d (inl this) =
        let (name, same, listed) = operation_named svc.name ref svc.operations this in
        let (i, op, service, operation) = IsFound-operation svc name f.0 listed in
        (
          op,
          ap (resolve_ref p parse_duration topo) (sym same)
              ∙ resolve_ref-append p parse_duration topo svc.name name i op d.0 service operation,
        )

  pub topology_of-IsFound :
      (svcs : List (ServiceConfig p lib)) (nodes : Nodes p lib)
      → All (IsAt 0 (name_table 0 (service_names p lib svcs) []) nodes.services) svcs
      → All (IsFound (topology_of p lib svcs nodes)) svcs
  unfolding IsAt IsFound
  topology_of-IsFound svcs nodes h =
      All-map
        (λ (svc : ServiceConfig p lib)
            (a : IsAt 0 (name_table 0 (service_names p lib svcs) []) nodes.services svc).
          let (i, first, service, names) = a in (i, first, service ∙ ap some (omega arith), names))
        svcs h
