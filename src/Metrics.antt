-- ===== src/Metrics.antt =====
-- app/metrics.py: the metrics that are declared. What the code records on them is a log
-- (Infra/World.antt).
use observable_url_shortener.Prelude.{Text, codes, ℕ, List, [], ◌∷◌}

pub data Kind : Type 0 where
  counter histogram : Kind

-- `buckets` are in 1/1000 of a second.
pub record Declaration : Type 0 where
  pub name : Text
  pub kind : Kind
  pub labelnames : List Text
  pub buckets : List ℕ

-- `_DURATION_BUCKETS`
abbrev duration_buckets : List ℕ
duration_buckets = 5 ∷ 10 ∷ 25 ∷ 50 ∷ 100 ∷ 250 ∷ 500 ∷ 1000 ∷ 2500 ∷ 10000 ∷ []

-- `Counter(name, …, labelnames=…)`
abbrev counter_of : Text → List Text → Declaration
counter_of name labelnames = record {
  name = name;
  kind = counter;
  labelnames = labelnames;
  buckets = [];
}

-- `Histogram(name, …, labelnames=…, buckets=_DURATION_BUCKETS)`
abbrev histogram_of : Text → List Text → Declaration
histogram_of name labelnames = record {
  name = name;
  kind = histogram;
  labelnames = labelnames;
  buckets = duration_buckets;
}

-- The objects of the module, in their order.
unfoldable pub registry : List Declaration
registry =
    histogram_of (codes "http_request_duration_seconds")
      (codes "route" ∷ codes "method" ∷ codes "status" ∷ [])
    ∷ counter_of (codes "cache_hit_total") (codes "route" ∷ [])
    ∷ counter_of (codes "cache_miss_total") (codes "route" ∷ [])
    ∷ counter_of (codes "rate_limit_rejections_total") (codes "route_class" ∷ [])
    ∷ counter_of (codes "redirect_total") (codes "status" ∷ [])
    ∷ histogram_of (codes "db_query_duration_seconds") (codes "query_type" ∷ [])
    ∷ histogram_of (codes "redis_operation_duration_seconds") (codes "operation" ∷ [])
    ∷ counter_of (codes "redis_fallback_total") (codes "component" ∷ codes "operation" ∷ [])
    ∷ []
