-- ===== src/Fixture.antt =====
-- A concrete platform and a small topology for the tests: float64 as thousandths, a counter as the
-- random source, the tracer and its span contexts as counters, and baggage as a list.
use motel.Prelude.{
  ℕ, zero, suc, ◌*◌, ◌/◌, ◌%◌, ◌<◌, ◌≡◌, refl, All, lookup, arith, false, String, List, [], ◌∷◌,
  none, some, if◌then◌else◌,
}
use motel.Prelude.Int.{ℤ, pos, ◌+ℤ◌, ◌-ℤ◌, ◌*ℤ◌, ltb_ℤ, leb_ℤ, quot}
use motel.Platform.{Float64, Platform, any_int}
use motel.Topology.Types.{Distribution, Call, Operation, Service, Topology}
use motel.Topology.Calls.{effective_calls}
use motel.Topology.Acyclic.{IsRanked, callees}
use motel.Check.Spans.Exact.{IsWorst, IsBounded, IsSmall, sum_calls}
use motel.Engine.World.{World, Engine, Ctx}

abbrev pub thousandths : Float64
thousandths = record {
  F = ℤ;
  lt = ltb_ℤ;
  le = leb_ℤ;
  add = λ a b. a +ℤ b;
  sub = λ a b. a -ℤ b;
  mul = λ a b. quot (a *ℤ b) (pos 1000);
  div = λ a b. quot (a *ℤ pos 1000) b;
  min_of = λ a b. if ltb_ℤ b a then b else a;
  lit = λ n d. pos (n * 1000 / d);
  of_int = λ z. z *ℤ pos 1000;
  to_int = λ x. quot x (pos 1000);
}

abbrev pub counting : Platform
counting = record {
  fl = thousandths;
  Rng = ℕ;
  float_64 = λ g. (pos (g * 37 % 1000), suc g);
  norm_float_64 = λ g. (pos (g * 53 % 1000), suc g);
  int_n = λ n g. (g % n, suc g);
  Gen = ℤ;
  Other = Unit;
  sprint = λ _. "other";
  generate = λ v g. (any_int v, g);
  Provider = ℕ;
  SpanContext = ℕ;
  start_span = λ service parent name start kind attrs links n. (n, suc n);
  Bag = List (String × String);
  Member = String × String;
  new_member_raw = λ k v. some (k, v);
  new_bag = λ ms. ms;
  members = λ b. b;
  member_key = λ m. m.0;
  member_value = λ m. m.1;
}

abbrev pub one_ms : Distribution
one_ms = record { mean = pos 1000000; std_dev = pos 0 }

-- The gateway calls the store twice, and each call is retried once.
abbrev pub store_call : Call counting
store_call = record {
  operation = 1;
  probability = pos 0;
  condition = "";
  count = 2;
  timeout = pos 0;
  retries = 1;
  retry_backoff = pos 500;
  async = false;
  producer = false;
}

abbrev pub plain_operation : ℕ → String → String → List (Call counting) → ℤ → Operation counting
plain_operation service name ref calls rate = record {
  service = service;
  name = name;
  ref = ref;
  duration = one_ms;
  error_rate = rate;
  calls = calls;
  call_style = "sequential";
  attributes = [];
  baggage = [];
  baggage_as_attributes = false;
  events = [];
  links = [];
  metrics = [];
  logs = [];
  queue_depth = 0;
  backpressure = none;
  circuit_breaker = none;
}

abbrev pub operation_at : ℕ → Operation counting
operation_at zero = plain_operation 0 "get" "gateway.get" (store_call ∷ []) (pos 0)
operation_at (suc n) = plain_operation 1 "read" "store.read" [] (pos 1000)

abbrev pub plain_service : String → List (String × ℕ) → Service counting
plain_service name operations = record {
  name = name;
  operations = operations;
  resource_attributes = [];
  attributes = [];
  baggage = [];
  metrics = [];
  logs = [];
}

abbrev pub service_at : ℕ → Service counting
service_at zero = plain_service "gateway" (("get", 0) ∷ [])
service_at (suc n) = plain_service "store" (("read", 1) ∷ [])

abbrev pub shop : Topology counting
shop = record {
  services = ("gateway", 0) ∷ ("store", 1) ∷ [];
  roots = 0 ∷ [];
  service = service_at;
  operation = operation_at;
}

abbrev pub shop_engine : Engine counting
shop_engine = record {
  topology = shop;
  label_scenarios = false;
  observed = false;
  decisions = [];
  span_limit = 10;
}

abbrev pub start_world : World counting
start_world = record {
  rng = 1;
  state = none;
  stats = record {
    traces = 0;
    spans = 0;
    errors = 0;
    failed_traces = 0;
    timeouts = 0;
    retries = 0;
    spans_bounded = 0;
    queue_rejections = 0;
    circuit_breaker_trips = 0;
  };
  span_count = 0;
  registry = none;
  provider = 0;
  output = [];
  plans = [];
}

abbrev pub start_ctx : Ctx counting
start_ctx = record { span = none; bag = [] }

-- The call graph of the topology, ranked, with the worst case of each operation.
abbrev pub height : ℕ → ℕ
height zero = 1
height (suc n) = 0

abbrev pub most : ℕ → ℕ
most zero = 5
most (suc n) = 1

pub shop-IsRanked : IsRanked counting shop [] height
unfolding effective_calls lookup
shop-IsRanked = record { falls = falls }
  where
    falls :
        (op : ℕ)
        → All (λ (c : Call counting). height c.operation < height op) (callees counting shop [] op)
    falls zero = (omega arith, tt)
    falls (suc n) = tt

pub shop-IsWorst : IsWorst counting shop [] most
unfolding effective_calls lookup
shop-IsWorst = record { equation = equation }
  where
    equation :
        (op : ℕ) → most op ≡ suc (sum_calls counting shop [] most (callees counting shop [] op))
    equation zero = refl
    equation (suc n) = refl

pub shop-IsBounded : IsBounded counting shop []
unfolding effective_calls lookup
shop-IsBounded = record { small = small }
  where
    small : (op : ℕ) → All IsSmall (callees counting shop [] op)
    small zero = ((omega arith, omega arith), tt)
    small (suc n) = tt
