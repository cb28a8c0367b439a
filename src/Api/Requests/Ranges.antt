-- ===== src/Api/Requests/Ranges.antt =====
-- The answer to a query for events, through the handler and the store.
use cluster_recorder.Prelude.Order.{nat_order}
use cluster_recorder.Prelude.Numerals.{codes, parse_int, value_of, pos_part}
use cluster_recorder.Sample.{Time}
use cluster_recorder.Store.Tables.{Tables}
use cluster_recorder.Store.Events.{EventQuery, events as events_of}
use cluster_recorder.Api.Requests.{Query, events}

-- The query that the handler makes.
abbrev pub asked : Query → Time → Time → EventQuery
asked q from to = record {
  namespace = q.namespace;
  node = q.node;
  from = from;
  to = to;
  limit = pos_part (value_of (parse_int (codes q.limit)));
}
