-- ===== src/VolumeIo/Examples.antt =====
-- Runs of a volume's I/O at concrete inputs: the target is a memory that keeps the last write.
use boardswarm.Prelude.{
  ◌≡◌, refl, some, none, List, [], ◌∷◌, ◌++◌, map, Bytes, ok, err, length, take,
}
use boardswarm.VolumeIo.Replies.{
  VolumeTarget, replies, read_default, flush_default, shutdown_default, reply_of, write_reply,
  flush_reply, shutdown_reply,
}
use boardswarm.VolumeIo.Serve.{
  Received, TargetRequest, TargetOrRequest, target_request, read_request, write_request,
  flush_request, shutdown_request, serve, serve_request, out_of_order,
}
use boardswarm.Status.{unimplemented}
use boardswarm.VolumeIo.Order.{taken, told, until_dropped, call_target, call_all, replies-in_order}

abbrev memory : VolumeTarget Bytes
memory = record {
  read = read_default;
  write = λ s data_ offset. (data_, some (ok (length data_)));
  flush = flush_default;
  shutdown = shutdown_default flush_default;
}

abbrev other_target : TargetRequest
other_target = record { volume_id = 1; target = "other"; length = none }

abbrev requests : List TargetOrRequest
requests = write_request (7 ∷ 8 ∷ []) 0 ∷ read_request 2 0 ∷ flush_request ∷ shutdown_request ∷ []

abbrev received : List Received
received = map (λ q. ok (some q)) requests ++ ok (some (target_request other_target)) ∷ ok none ∷ []

-- The last write, and what each request is answered, the second target with its error.
replies-in_order_example :
    ((serve memory [] received).0 ≡ (call_all memory [] (taken received)).0)
    × (replies 9 (serve memory [] received).1
        ≡ take 9 (until_dropped (call_all memory [] (taken received)).1))
replies-in_order_example = replies-in_order memory 9 [] received

expected_replies :
    until_dropped (call_all memory [] (taken received)).1
    ≡ ok (write_reply 2)
      ∷ err (unimplemented "Target is not readable")
      ∷ ok flush_reply
      ∷ ok shutdown_reply
      ∷ err out_of_order
      ∷ []
unfolding call_all call_target taken told until_dropped read_default flush_default shutdown_default
expected_replies = refl

five_replies : length (replies 9 (serve memory [] received).1) ≡ 5
unfolding replies serve serve_request reply_of read_default flush_default shutdown_default
five_replies = refl
