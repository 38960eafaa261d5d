-- ===== src/Status.antt =====
-- `tonic::Status`: a code and a message.
use boardswarm.Prelude.{String}

pub data Status : Type 0 where
  invalid_argument not_found out_of_range unimplemented internal : String → Status
  unavailable aborted failed_precondition other : String → Status
