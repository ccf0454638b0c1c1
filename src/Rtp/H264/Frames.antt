-- ===== src/Rtp/H264/Frames.antt =====
-- pkg/rtp/h264.go: `DepacketizeFrames`, which keeps the parameter sets and announces them before the
-- pictures that use them.
pub mod Same
pub mod Announced
use liveforge.Base.{
  ℕ, zero, suc, ◌+◌, ◌/◌, ◌%◌, ℤ, pos, Bool, true, false, not, ◌&&◌, ◌||◌, Option, none, some, List,
  [], ◌∷◌, ◌++◌, ltb, ◌==◌, if◌then◌else◌, length, take, drop, get_or,
}
use liveforge.AvFrame.{
  Frame, new_frame, media_type_video, frame_type_keyframe, frame_type_interframe,
  frame_type_sequence_header,
}
use liveforge.AvFrame.Codec.{h264}
use liveforge.Bytes.{Result, ok, err, is_shorter, be32, put16}
use liveforge.Rtp.{Packet}
use liveforge.Rtp.H264.{Error, H264Depacketizer, depacketize_payload}

-- `bytes.Equal`
abbrev pub bytes_equal : List ℕ → List ℕ → Bool
bytes_equal [] [] = true
bytes_equal [] (b ∷ bs) = false
bytes_equal (a ∷ xs) [] = false
bytes_equal (a ∷ xs) (b ∷ bs) = let rest = bytes_equal xs bs in (a == b) && rest

-- `buildAVCDecoderConfigFromNALs`, where [] is nil
unfoldable pub build_config : List ℕ → List ℕ → List ℕ
build_config sps pps =
    if is_shorter 4 sps
    then []
    else 1
      ∷ (get_or sps 1 0
          ∷ (get_or sps 2 0
              ∷ (get_or sps 3 0
                  ∷ (255
                      ∷ (225
                          ∷ (put16 (length sps) ++ (sps ++ (1 ∷ (put16 (length pps) ++ pps)))))))))

-- the variables of the loop over the NAL units
pub record Scan : Type 0 where
  pub state : H264Depacketizer
  pub frame_type : ℕ
  pub has_vcl : Bool
  pub has_parameter_sets : Bool

abbrev pub keep_sps : List ℕ → H264Depacketizer → H264Depacketizer
keep_sps nal d = if bytes_equal d.sps nal then d else record d { sps = nal; config_sent = false }

abbrev pub keep_pps : List ℕ → H264Depacketizer → H264Depacketizer
keep_pps nal d = if bytes_equal d.pps nal then d else record d { pps = nal; config_sent = false }

-- a round of the loop
unfoldable pub scan_nal : List ℕ → Scan → Scan
scan_nal nal s =
    let kind : ℕ = get_or nal 0 0 % 32 in
    if kind == 1
    then record s { has_vcl = true }
    else if kind == 5
    then record s { has_vcl = true; frame_type = frame_type_keyframe }
    else if kind == 7
    then record s { has_parameter_sets = true; state = keep_sps nal s.state }
    else if kind == 8
    then record s { has_parameter_sets = true; state = keep_pps nal s.state }
    else s

-- The loop, on what is left of the data. A round takes four bytes at least.
unfoldable pub scan_nals : ℕ → List ℕ → Scan → Scan
scan_nals fuel [] s = s
scan_nals zero (b ∷ left) s = s
scan_nals (suc fuel) (b ∷ left) s =
    let nal_len : ℕ = be32 (b ∷ left) 0 in
    let rest : List ℕ = drop 4 (b ∷ left) in
    scan_nals fuel (drop nal_len rest) (scan_nal (take nal_len rest) s)

abbrev pub sequence_header : H264Depacketizer → Frame
sequence_header d =
    new_frame media_type_video h264 frame_type_sequence_header (pos 0) (pos 0)
      (build_config d.sps d.pps)

-- The configuration is due.
abbrev pub is_due : H264Depacketizer → Bool
is_due d = not d.config_sent && (ltb 0 (length d.sps) && ltb 0 (length d.pps))

abbrev pub picture : ℕ → List ℕ → Frame
picture frame_type nals = new_frame media_type_video h264 frame_type (pos 0) (pos 0) nals

-- the frames that are returned after the loop
unfoldable pub emit : List ℕ → Scan → List Frame × H264Depacketizer
emit nals s =
    let frame_type : ℕ =
      if s.has_vcl && s.has_parameter_sets then frame_type_keyframe else s.frame_type in
    let media : List Frame = if s.has_vcl then picture frame_type nals ∷ [] else [] in
    if is_due s.state
    then (sequence_header s.state ∷ media, record (s.state) { config_sent = true })
    else (media, s.state)

abbrev pub scan_start : H264Depacketizer → Scan
scan_start d = record {
  state = d;
  frame_type = frame_type_interframe;
  has_vcl = false;
  has_parameter_sets = false;
}

abbrev pub returned : List Frame × H264Depacketizer → Result Error (List Frame) × H264Depacketizer
returned (frames, d) = (ok frames, d)

abbrev pub after_payload :
    Result Error (Option (List ℕ)) × H264Depacketizer → Result Error (List Frame) × H264Depacketizer
after_payload (err e, d) = (err e, d)
after_payload (ok none, d) = (ok [], d)
after_payload (ok (some []), d) = (ok [], d)
after_payload (ok (some (b ∷ nals)), d) =
    returned (emit (b ∷ nals) (scan_nals (length (b ∷ nals)) (b ∷ nals) (scan_start d)))

-- `H264Depacketizer.DepacketizeFrames`
unfoldable pub depacketize_frames :
    H264Depacketizer → Packet → Result Error (List Frame) × H264Depacketizer
depacketize_frames d p = after_payload (depacketize_payload d p)
