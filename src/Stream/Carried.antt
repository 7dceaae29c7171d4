-- ===== src/Stream/Carried.antt =====
-- stream/client.go: what a stream carries, and the responses to it.
use trpc_go.Common.{ℕ, ◌≡◌, ◌≢◌, refl, List, [], ◌∷◌, ◌++◌, map, arith}
use trpc_go.Wire.BigEndian.{Bytes}
use trpc_go.Codec.Stream.{StreamProtocol}
use trpc_go.Stream.Client.{
  StreamError, head_invalid, read_end, Frame, Arrival, fails, headless, frame, error_response,
  message_response, reset_or_eof,
}
use trpc_go.Stream.Receiving.{responses}

-- What arrives carries these payloads and then ends the stream with this error: Data frames, with
-- Feedback frames between them, up to a Close frame, an error or a message without a head.
pub data Carries (pb : StreamProtocol) : List Arrival → List Bytes → StreamError → Type 0 where
  carries_data :
      (f : Frame) (later : List Arrival) (ps : List Bytes) (e : StreamError)
      → f.frame_type ≡ pb.data_type
      → Carries pb later ps e
      → Carries pb (frame f ∷ later) (f.payload ∷ ps) e
  carries_feedback :
      (f : Frame) (later : List Arrival) (ps : List Bytes) (e : StreamError)
      → f.frame_type ≡ pb.feedback_type
      → Carries pb later ps e
      → Carries pb (frame f ∷ later) ps e
  carries_close :
      (f : Frame) (later : List Arrival)
      → f.frame_type ≡ pb.close_type
      → Carries pb (frame f ∷ later) [] (reset_or_eof f.rsp_err)
  carries_failure : (e : ℕ) (later : List Arrival) → Carries pb (fails e ∷ later) [] (read_end e)
  carries_headless : (later : List Arrival) → Carries pb (headless ∷ later) [] head_invalid

-- The frame types are three.
pub record IsDistinct (pb : StreamProtocol) : Type 0 where
  pub data_close : pb.data_type ≢ pb.close_type
  pub data_feedback : pb.data_type ≢ pb.feedback_type
  pub close_feedback : pb.close_type ≢ pb.feedback_type

pub Carries-responses :
    (pb : StreamProtocol) (rs : List Arrival) (ps : List Bytes) (e : StreamError)
    → IsDistinct pb
    → Carries pb rs ps e
    → responses pb rs ≡ map message_response ps ++ (error_response e ∷ [])
unfolding responses
Carries-responses pb _ _ _ d (carries_data f later ps e t c) =
    let rest = Carries-responses pb later ps e d c in ground (arith, rest)
Carries-responses pb _ _ _ d (carries_feedback f later ps e t c) =
    let rest = Carries-responses pb later ps e d c in
    ground (arith, rest, d.data_feedback, d.close_feedback)
Carries-responses pb _ _ _ d (carries_close f later t) = ground (arith, d.data_close)
Carries-responses pb _ _ _ d (carries_failure e later) = refl
Carries-responses pb _ _ _ d (carries_headless later) = refl
