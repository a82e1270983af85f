-- ===== src/Config/Refs.antt =====
-- pkg/synth/topology.go, resolveRef: a reference that is put together from names is taken apart again.
use Prim.Native.String
use Prim.Native.String.append
use Prim.Native.Char.{code}
use motel.Prelude.Int.{ℤ}
use motel.Platform.{Platform}
use motel.Topology.Types.{Topology}
use motel.Prelude.{ℕ, lookup, ◌≡◌, refl, ap, ◌∙◌, false, String, Option, some, ◌==◌, arith}
use motel.Config.{cut, contains_dot, resolve_ref}

cut-dot : (t : String) → cut (String.◌++◌ "." t) ≡ some ("", t)
unfolding cut
cut-dot t = rw (append.cons, append.nil) refl

cut-append :
    (service operation : String)
    → contains_dot service ≡ false
    → cut (String.◌++◌ service (String.◌++◌ "." operation)) ≡ some (service, operation)
unfolding cut contains_dot
cut-append String.[] operation h =
    ap cut {y = String.◌++◌ "." operation} (append.nil (String.◌++◌ "." operation))
    ∙ cut-dot operation
cut-append (String.◌∷◌ c s) operation h =
    let rest = cut-append s operation (ground (arith, h)) in
    let other : (code c == b'.') ≡ false = ground (arith, h) in
    ap cut (append.cons c s (String.◌++◌ "." operation)) ∙ rw (other, rest) refl

-- The reference that is made of the names of a service and of one of its operations resolves to that
-- operation, if the name of the service has no dot; the name of the operation may have some.
pub resolve_ref-append :
    (p : Platform) (parse_duration : String → Option ℤ) (topo : Topology p)
    (service operation : String) (svc op : ℕ)
    → contains_dot service ≡ false
    → lookup service topo.services ≡ some svc
    → lookup operation (topo.service svc).operations ≡ some op
    → resolve_ref p parse_duration topo (String.◌++◌ service (String.◌++◌ "." operation)) ≡ some op
unfolding resolve_ref
resolve_ref-append p parse_duration topo service operation svc op h s o =
    rw (resolve_ref, cut-append service operation h, s, o) refl
