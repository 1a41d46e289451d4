-- ===== src/Tests/Cli.antt =====
-- Reading a stream that is longer than the limit.
use protocol_c.Prelude.{◌≡◌, codes, arith}
use protocol_c.Py.Result.{err, value_error}
use protocol_c.Cli.{read_limited}
use protocol_c.Cli.Limited.{read_limited_lem}

read_limited_lem_example : read_limited 5 (codes "abc") 2 ≡ err value_error
read_limited_lem_example = read_limited_lem 5 2 (codes "abc") (omega arith)
