-- ===== src/Operation/Result/Once.antt =====
-- takeOperationResult of src/SSD1315.cpp hands each result out once.
use ssd.Common.{true, none, some, ◌≡◌, arith}
use ssd.Status.{Err, error, is_ok}
use ssd.Driver.{Driver}
use ssd.Operation.Result.{take_operation_result}

-- A result that is handed out is the recorded one, and a second call hands out nothing and
-- changes nothing.
pub take_operation_result_once :
    (d : Driver)
    → is_ok (take_operation_result d).0 ≡ true
    → let (st, out, e) = take_operation_result d in
      (out ≡ some d.operation.progress)
      × (take_operation_result e ≡ (error Err.result_not_available, none, e))
unfolding take_operation_result
take_operation_result_once d h = ground arith
