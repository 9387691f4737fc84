-- ===== src/Orp.antt =====
-- The frames of lib/orp (github.com/boanlab/OutRelay, not in this repository) as the agent sees
-- them: a frame is given by what ParseFrame and UnmarshalProto make of it, so the wire format is
-- left out, and a payload that does not unmarshal is `malformed`.
use outrelay_agent.Base.{ℕ, List, Text}

pub record PbCandidate : Type 0 where
  pub kind : Text
  pub ip : Text
  pub port : ℕ
  pub priority : ℕ

pub record CandidateList : Type 0 where
  pub stream_id : ℕ
  pub candidates : List PbCandidate

pub record AllocGranted : Type 0 where
  pub stream_id : ℕ
  pub my_allocation : ℕ
  pub peer_allocation : ℕ
  pub forward_endpoint : Text

-- STREAM_CHECKPOINT and STREAM_RESUME.
pub record Positions : Type 0 where
  pub stream_id : ℕ
  pub my_position : ℕ
  pub peer_ack_position : ℕ

pub record ObservedAddr : Type 0 where
  pub request_id : ℕ
  pub ip : Text
  pub port : ℕ

pub record IncomingStream : Type 0 where
  pub target_service : Text
  pub stream_id : ℕ

pub record OpenStream : Type 0 where
  pub target_service : Text
  pub method : Text
  pub stream_id : ℕ

pub record Migrate : Type 0 where
  pub stream_id : ℕ
  pub selected : PbCandidate

pub data FrameType : Type 0 where
  hello hello_ack register register_ack open_stream incoming_stream : FrameType
  stream_accept stream_reject stream_ready alloc_granted : FrameType
  stream_checkpoint stream_resume candidate_offer candidate_answer : FrameType
  migrate_to_p2p observed_addr_query observed_addr_resp : FrameType
  other_type : ℕ → FrameType

pub data Frame : Type 0 where
  hello_frame : Text → Text → Frame
  hello_ack_frame : Frame
  register_frame : Text → Text → Frame
  register_ack_frame : Frame
  open_stream_frame : OpenStream → Frame
  incoming_stream_frame : IncomingStream → Frame
  stream_accept_frame : Frame
  stream_reject_frame : ℕ → Text → Frame
  stream_ready_frame : ℕ → Frame
  alloc_granted_frame : AllocGranted → Frame
  checkpoint_frame : Positions → Frame
  resume_frame : Positions → Frame
  offer_frame : CandidateList → Frame
  answer_frame : CandidateList → Frame
  migrate_frame : Migrate → Frame
  addr_query_frame : ℕ → Frame
  addr_resp_frame : ObservedAddr → Frame
  malformed : FrameType → Frame
  unknown_frame : ℕ → Frame
