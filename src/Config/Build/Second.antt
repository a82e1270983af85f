-- ===== src/Config/Build/Second.antt =====
-- pkg/synth/topology.go, BuildTopology: the second pass succeeds on a configuration that the
-- validation accepts.
use motel.Prelude.{
  ℕ, ◌≡◌, refl, inl, inr, Bool, true, not, String, str_eq, List, [], ◌∷◌, Option, some, Dict,
  insert, All, All-map, Any, arith, map,
}
use motel.Prelude.Results.{
  ok, reject, blame, >>-ok, blame-ok, reject-ok, Made, >>=-Made, demand-Made, collect-total,
}
use motel.Platform.{Platform}
use motel.Topology.Types.{Operation, Topology}
use motel.Topology.Calls.{is_set}
use motel.Config.{contains_dot, resolve_ref}
use motel.Config.Types.{Library, LinkConfig, OperationConfig, ServiceConfig}
use motel.Config.Parts.{check_attributes}
use motel.Config.Tables.{
  part_error, ref_of, empty_link, link_without_dot, unknown_link, link_to_itself, duplicate_link,
}
use motel.Config.Operations.{check_links}
use motel.Config.Build.{unresolved_link, nil_operation}
use motel.Config.Build.Parts.{check_attributes-total}
use motel.Config.Build.CallsMade.{calls-Made}
use motel.Config.Build.First.{Accepted}
use motel.Config.Build.Names.{IsFound, IsFound-operation}
use motel.Config.Build.Passes.{
  resolve_link, own_number, resolve_operation, resolve_operations, resolve_services,
  operation_names,
}

module _ (p : Platform) (lib : Library p) (resolver : Option (String → Option (Dict p.Gen)))
    (topo : Topology p) (known : Dict Bool)
    (resolves : (ref : String)
      → is_set ref known ≡ true
      → (op : ℕ) × (resolve_ref p lib.parse_duration topo ref ≡ some op)) where
  open lib use {parse_duration}

  links-Made :
      (ref : String) (links : List (LinkConfig p lib)) (seen : Dict Bool)
      → check_links p lib known ref links seen ≡ ok tt
      → All (λ link. Made (resolve_link p lib resolver topo link)) links
  unfolding check_links resolve_link
  links-Made ref [] seen h = tt
  links-Made ref (link ∷ links) seen h =
      let (_, h1) = >>-ok (reject (str_eq link.ref "") empty_link) _ h in
      let (_, h2) = >>-ok (reject (not (contains_dot link.ref)) link_without_dot) _ h1 in
      let (unknown, h3) = >>-ok (reject (not (is_set link.ref known)) unknown_link) _ h2 in
      let (_, h4) = >>-ok (reject (str_eq link.ref ref) link_to_itself) _ h3 in
      let (_, h5) = >>-ok (reject (is_set link.ref seen) duplicate_link) _ h4 in
      let (attributes, rest) =
        >>-ok (blame part_error (check_attributes p lib link.attributes)) _ h5 in
      let there : is_set link.ref known ≡ true =
        ground (arith, reject-ok (not (is_set link.ref known)) unknown_link unknown) in
      (
        >>=-Made _ _ (demand-Made _ unresolved_link (resolves link.ref there)) λ _ _.
            >>=-Made _ _
              (check_attributes-total p lib [] link.attributes (blame-ok part_error _ attributes))
              λ _ _. (_, refl),
        links-Made ref links (insert link.ref true seen) rest,
      )

  own_number-some :
      (svc : ServiceConfig p lib) (name : String)
      → IsFound p lib topo svc
      → Any (λ n. n ≡ name) (operation_names p lib svc)
      → (i : ℕ) × (own_number p lib resolver topo svc.name name ≡ some i)
  unfolding own_number
  own_number-some svc name f h =
      let (i, op, service, operation) = IsFound-operation p lib topo svc name f h in
      (op, rw (own_number, service) operation)

  resolve_operations-Made :
      (svc : ServiceConfig p lib) (ops : List (OperationConfig p lib))
      (operations : List (Operation p))
      → IsFound p lib topo svc
      → All (Accepted p lib known svc.name) ops
      → All (λ (op : OperationConfig p lib). Any (λ n. n ≡ op.name) (operation_names p lib svc)) ops
      → Made (resolve_operations p lib resolver topo svc.name ops operations)
  unfolding resolve_operations resolve_operation
  resolve_operations-Made svc [] operations f a m = (_, refl)
  resolve_operations-Made svc (op ∷ ops) operations f a m =
      >>=-Made _ _
        (>>=-Made _ _ (demand-Made _ nil_operation (own_number-some svc op.name f m.0)) λ _ _.
          >>=-Made _ _
            (collect-total _ _ (links-Made (ref_of svc.name op.name) op.links [] a.0.links))
            λ _ _.
              >>=-Made _ _
                (collect-total _ _ (calls-Made p lib topo known resolves op.calls a.0.calls))
                λ _ _. (_, refl))
        λ rest _. resolve_operations-Made svc ops rest f a.1 m.1

  own_names :
      (ops : List (OperationConfig p lib))
      → All
          (λ (op : OperationConfig p lib).
            Any (λ n. n ≡ op.name) (map (λ (o : OperationConfig p lib). o.name) ops))
          ops
  own_names [] = tt
  own_names (op ∷ ops) = (
    inl refl,
    All-map
        (λ (o : OperationConfig p lib)
            (m : Any (λ n. n ≡ o.name) (map (λ (x : OperationConfig p lib). x.name) ops)).
          inr m)
        ops (own_names ops),
  )

  pub resolve_services-Made :
      (svcs : List (ServiceConfig p lib)) (operations : List (Operation p))
      → All (IsFound p lib topo) svcs
      → All (λ (svc : ServiceConfig p lib). All (Accepted p lib known svc.name) svc.operations) svcs
      → Made (resolve_services p lib resolver topo svcs operations)
  unfolding resolve_services
  resolve_services-Made [] operations f a = (_, refl)
  resolve_services-Made (svc ∷ svcs) operations f a =
      >>=-Made _ _
        (resolve_operations-Made svc svc.operations operations f.0 a.0 (own_names svc.operations))
        λ rest _. resolve_services-Made svcs rest f.1 a.1
