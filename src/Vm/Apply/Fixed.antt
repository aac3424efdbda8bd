-- ===== src/Vm/Apply/Fixed.antt =====
-- The whole of the interpreter, with its primitives, keeps the place of the code, the segments and the number of
-- globals.
use animula.Object.{Object}
use animula.Vm.State.{Vm}
use animula.Vm.Interp.Fixed.{Fixed}
