-- ===== src/Query.antt =====
-- internal/app/query/memory_repo.go: the stub behind the query API.
use api_observability_platfo.Base.{Option, none}
use api_observability_platfo.Domain.{Error, Query, QueryResult}
use api_observability_platfo.Contract.{Context, Repository}

unfoldable pub query_range : Context → Query → QueryResult × Option Error
query_range ctx q = (record { series = none }, none)

unfoldable pub memory_repository : Repository
memory_repository = record { query_range = query_range }
