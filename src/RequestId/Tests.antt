-- ===== src/RequestId/Tests.antt =====
-- Runs of `newRequestID`, and the theorem about it at two times.
use loghub.Common.{◌≡◌, refl, arith, true, length, codes}
use loghub.Search.{bytes_less}
use loghub.RequestId.{new_request_id}
use loghub.RequestId.Order.{new_request_id-less}

first_id : new_request_id 0 33 ≡ codes "0000000000000011"
unfolding new_request_id
first_id = refl

some_id : new_request_id 1_753_000_000_000 4_294_967_295 ≡ codes "06C2DW9T03ZZZZZZ"
unfolding new_request_id
some_id = refl

new_request_id-less_example :
    (length (new_request_id 1_753_000_000_000 4_294_967_295) ≡ 16)
    × (bytes_less
          (new_request_id 1_753_000_000_000 4_294_967_295)
          (new_request_id 1_753_000_000_001 0)
        ≡ true)
new_request_id-less_example =
    new_request_id-less 1_753_000_000_000 1_753_000_000_001 4_294_967_295 0 (omega arith)
      (omega arith)
