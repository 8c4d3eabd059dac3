-- ===== src/Common/CircularBuffer/Tests.antt =====
-- src/common/circularbuffer.c at concrete inputs, some from tests/unit/circularbuffer.c.
use the_polling_express.Base.{ℕ, ◌≡◌, refl, true, false, [], ◌∷◌, arith}
use the_polling_express.Common.CircularBuffer.{
  cb_full, CircularBuffer, cb_pop_front, cb_push_back, cb_to_array,
}
use the_polling_express.Common.CircularBuffer.Refine.{
  IsValid, push_pop-refines, contents, queue_pop, queue_push,
}

-- 7, 8, then 9, round the end of the storage
abbrev wrapped : CircularBuffer ℕ
wrapped = record { buffer = 9 ∷ 7 ∷ 8 ∷ []; capacity = 3; count = 3; head = 1; tail = 1 }

wrapped-IsValid : IsValid wrapped
wrapped-IsValid = record {
  storage = refl;
  room = omega arith;
  tail_in = omega arith;
  count_in = omega arith;
  head_at = refl;
}

wrapped_contents : cb_to_array 0 wrapped ≡ 7 ∷ 8 ∷ 9 ∷ []
unfolding cb_to_array
wrapped_contents = refl

push_refused : (cb_push_back wrapped 5 false).0 ≡ cb_full
unfolding cb_push_back
push_refused = refl

push_drops_oldest : cb_to_array 0 (cb_push_back wrapped 5 true).1 ≡ 8 ∷ 9 ∷ 5 ∷ []
unfolding cb_to_array cb_push_back
push_drops_oldest = refl

push_pop-refines_example :
    let (pushed, cb1) = cb_push_back wrapped 5 true in
    let (popped, item, cb2) = cb_pop_front wrapped in
    ((pushed, contents 0 cb1) ≡ queue_push 3 (contents 0 wrapped) 5 true)
    × ((popped, item, contents 0 cb2) ≡ queue_pop (contents 0 wrapped))
    × IsValid cb1
    × IsValid cb2
push_pop-refines_example = push_pop-refines 0 wrapped 5 true wrapped-IsValid
