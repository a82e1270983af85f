-- ===== src/TraceImport/Tests.antt =====
-- A trace of a shop: a gateway calls a database twice, once in a nested transaction.
use motel.Prelude.{
  ℕ, ◌<◌, ◌≡◌, ◌↔◌, refl, false, String, List, [], ◌∷◌, some, Dict, lookup, IsMap, All, Any, get_or,
  arith,
}
use motel.Prelude.Int.{pos}
use motel.TraceImport.{Span}
use motel.TraceImport.Infer.{infer_service_attributes}
use motel.TraceImport.Infer.Constant.{OfService}
use motel.TraceImport.Infer.Every.{HasValue, attributes_at, infer_service_attributes-HasValue}
use motel.TraceImport.Trees.{build_tree}
use motel.TraceImport.Trees.Places.{places, is_none, is_place, parent_of, build_tree-places}
use motel.TraceImport.Stats.{
  SpanNode, span_node, no_nodes, more_nodes, Services, collect_from_trees,
}
use motel.TraceImport.Stats.Others.{HasNoSelfCall, collect_from_trees-HasNoSelfCall}
use motel.TraceImport.Stats.Sound.{AreSound, collect_from_trees-AreSound}
use motel.Fixture.{thousandths}

abbrev recorded : String → String → String → String → Dict String → Span
recorded id parent service operation attributes = record {
  trace_id = "t";
  span_id = id;
  parent_id = parent;
  service = service;
  operation = operation;
  start_time = pos 0;
  end_time = pos 5;
  is_error = false;
  attributes = attributes;
}

abbrev front : Span
front = recorded "a" "" "gateway" "get" []

abbrev outer_query : Span
outer_query = recorded "b" "a" "db" "query" (("region", "eu") ∷ [])

abbrev inner_query : Span
inner_query = recorded "c" "b" "db" "query" (("region", "eu") ∷ ("retry", "1") ∷ [])

abbrev shop_spans : List Span
shop_spans = front ∷ outer_query ∷ inner_query ∷ []

abbrev shop_spans_maps : All (λ (s : Span). IsMap s.attributes) shop_spans
unfolding lookup
shop_spans_maps = (tt, ((refl, tt), ((refl, (refl, tt)), tt)))

infer_service_attributes-HasValue_example :
    (lookup "region" (attributes_at "db" (infer_service_attributes shop_spans)) ≡ some "eu")
    ↔ (All (HasValue "db" "region" "eu") shop_spans × Any (OfService "db") shop_spans)
infer_service_attributes-HasValue_example =
    infer_service_attributes-HasValue "db" "region" "eu" shop_spans shop_spans_maps

build_tree-places_example :
    ((build_tree "t" shop_spans).roots
      ≡ places (λ s. is_none (parent_of shop_spans s)) 0 shop_spans)
    × ((j : ℕ)
        → j < 3
        → get_or (build_tree "t" shop_spans).children j []
          ≡ places (λ s. is_place j (parent_of shop_spans s)) 0 shop_spans)
build_tree-places_example = build_tree-places "t" shop_spans

abbrev inner_node : SpanNode
inner_node = span_node inner_query no_nodes

abbrev outer_node : SpanNode
outer_node = span_node outer_query (more_nodes inner_node no_nodes)

abbrev front_node : SpanNode
front_node = span_node front (more_nodes outer_node no_nodes)

collect_from_trees-AreSound_example :
    (v : Services thousandths) × (collect_from_trees thousandths 3 ((front_node ∷ []) ∷ []) []
      ≡ some v)
    × AreSound thousandths v
collect_from_trees-AreSound_example =
    collect_from_trees-AreSound thousandths 3 ((front_node ∷ []) ∷ []) ((omega arith, tt), tt)

collect_from_trees-HasNoSelfCall_example :
    (v : Services thousandths) × (collect_from_trees thousandths 3 ((front_node ∷ []) ∷ []) []
      ≡ some v)
    × HasNoSelfCall thousandths v
collect_from_trees-HasNoSelfCall_example =
    collect_from_trees-HasNoSelfCall thousandths 3 ((front_node ∷ []) ∷ []) ((omega arith, tt), tt)
