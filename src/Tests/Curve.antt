-- ===== src/Tests/Curve.antt =====
-- Runs and instances of the theorems on the curve and on numbers as text.
use protocol_c.Prelude.{◌≡◌, some, arith}
use protocol_c.Prelude.Int.{pos}
use protocol_c.Py.Result.{ok}
use protocol_c.Py.Hex.{int16, format_064x}
use protocol_c.Py.Hex.Parse.{int16-format}
use protocol_c.Curve.{point_mul}
use protocol_c.Curve.Cyclic.{point_mul_lem}
use protocol_c.Tests.Tiny.{tiny, multiple, tiny-IsGroup}

point_mul_lem_example : point_mul tiny 5 (multiple 1) ≡ ok (multiple 5)
point_mul_lem_example = point_mul_lem tiny tiny-IsGroup.multiples 5 (omega arith)

int16-format_example : int16 (format_064x 48879) ≡ some (pos 48879)
int16-format_example = int16-format 48879 (omega arith)
