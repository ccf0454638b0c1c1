-- ===== src/Rtp/Tests.antt =====
-- pkg/rtp at concrete inputs.
use liveforge.Base.{
  ℕ, List, ◌==◌, false≢true, ◌≡◌, ◌≢◌, ap, ◌<◌, refl, false, true, none, some, [], ◌∷◌, length,
  arith,
}
use liveforge.AvFrame.{Frame}
use liveforge.Bytes.{ok}
use liveforge.Rtp.{Packet}
use liveforge.Rtp.H264.{
  H264Depacketizer, reset_fu, depacketize_payload, depacketize_checked, validate_nal, nal_to_avcc,
}
use liveforge.Rtp.H264.Fragments.{Track}
use liveforge.Rtp.H264.Reassembly.{feed, fragmented, outputs, body, IsNal, feed-fragmented}
use liveforge.Rtp.H264.Aggregates.{avcc, aggregate, depacketize_payload-aggregate}
use liveforge.Rtp.H264.Frames.{
  depacketize_frames, sequence_header, build_config, scan_nals, scan_nal, emit,
}
use liveforge.Rtp.H264.Frames.Announced.{latest, new_depacketizer, start, next, announced_first}

-- a depacketizer that holds an unfinished NAL unit
abbrev busy : H264Depacketizer
busy = record {
  buf = some (65 ∷ 4 ∷ []);
  fu_sequence = 9;
  fu_timestamp = 1;
  fu_ssrc = 7;
  fu_payload_type = 96;
  fu_fragments = 2;
  sps = [];
  pps = [];
  config_sent = false;
}

abbrev track : Track
track = record { timestamp = 3000; ssrc = 7; payload_type = 96 }

picture-IsNal : IsNal 101 (body (1 ∷ []) ((2 ∷ []) ∷ []) (3 ∷ []))
picture-IsNal = record { header = omega arith; size = omega arith; parameters = λ e. omega arith }

-- the sequence number wraps within the NAL unit
feed-fragmented_example :
    feed busy (fragmented track 65535 101 true (1 ∷ []) ((2 ∷ []) ∷ []) (3 ∷ []))
    ≡ (outputs 2 (101 ∷ 1 ∷ 2 ∷ 3 ∷ []), reset_fu busy)
feed-fragmented_example =
    feed-fragmented busy track 65535 101 true (1 ∷ []) ((2 ∷ []) ∷ []) (3 ∷ []) picture-IsNal
      (omega arith)

abbrev single : ℕ → List ℕ → Packet
single seq nal = record {
  sequence_number = seq;
  timestamp = 0;
  ssrc = 7;
  payload_type = 96;
  marker = false;
  payload = nal;
}

abbrev after_sps : H264Depacketizer
after_sps = (depacketize_frames new_depacketizer (single 1 (103 ∷ 66 ∷ 0 ∷ 30 ∷ []))).1

abbrev after_pps : H264Depacketizer
after_pps = (depacketize_frames after_sps (single 2 (104 ∷ 206 ∷ []))).1

abbrev header : List Frame
header = sequence_header after_pps ∷ []

sps_first :
    depacketize_frames new_depacketizer (single 1 (103 ∷ 66 ∷ 0 ∷ 30 ∷ [])) ≡ (ok [], after_sps)
unfolding depacketize_frames depacketize_payload depacketize_checked validate_nal nal_to_avcc
    scan_nals scan_nal emit
sps_first = refl

pps_then : depacketize_frames after_sps (single 2 (104 ∷ 206 ∷ [])) ≡ (ok header, after_pps)
unfolding depacketize_frames depacketize_payload depacketize_checked validate_nal nal_to_avcc
    scan_nals scan_nal emit
pps_then = refl

known : (0 < length after_pps.sps) × (0 < length after_pps.pps)
unfolding depacketize_frames depacketize_payload depacketize_checked validate_nal nal_to_avcc
    scan_nals scan_nal emit
known = (omega arith, omega arith)

some_frame : header ≢ []
some_frame e = absurd (false≢true (ap (λ fs. length fs == 0) e))

announced_first_example : latest none header ≡ some (build_config after_pps.sps after_pps.pps)
announced_first_example =
    announced_first after_sps after_pps none (single 2 (104 ∷ 206 ∷ [])) header
      (next (single 1 (103 ∷ 66 ∷ 0 ∷ 30 ∷ [])) start sps_first) pps_then some_frame known.0 known.1

abbrev parameter_sets : List (List ℕ)
parameter_sets = (103 ∷ 66 ∷ 0 ∷ 30 ∷ []) ∷ (104 ∷ 206 ∷ []) ∷ []

depacketize_payload-aggregate_example :
    depacketize_payload busy (single 1 (120 ∷ aggregate parameter_sets))
    ≡ (ok (some (avcc parameter_sets)), reset_fu busy)
unfolding validate_nal nal_to_avcc
depacketize_payload-aggregate_example =
    depacketize_payload-aggregate busy (single 1 (120 ∷ aggregate parameter_sets)) 120
      (103 ∷ 66 ∷ 0 ∷ 30 ∷ []) ((104 ∷ 206 ∷ []) ∷ []) (omega arith) refl refl
      (refl, omega arith, omega arith, (refl, omega arith, omega arith, tt)) (omega arith)
