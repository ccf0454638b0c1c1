-- ===== src/Rtp/H264/Frames/Announced.antt =====
-- pkg/rtp/h264.go: the sequence header that was returned last is the one of the parameter sets that the
-- pictures use.
use liveforge.Base.{
  ℕ, zero, suc, ◌%◌, ◌<◌, ◌≡◌, ◌≢◌, refl, sym, ap₂, ◌∙◌, subst, Bool, true, false, not, ◌&&◌,
  false≢true, Option, none, some, List, [], ◌∷◌, arith, ltb, ◌==◌, if◌then◌else◌, length, take,
  drop, get_or, Bool-cases, inl, inr,
}
use liveforge.AvFrame.{Frame, new_frame, frame_type_sequence_header, frame_type_keyframe}
use liveforge.Bytes.{Result, ok, err, be32}
use liveforge.Rtp.{Packet}
use liveforge.Rtp.H264.{Error, H264Depacketizer, depacketize_payload}
use liveforge.Rtp.H264.Frames.{
  build_config, bytes_equal, Scan, scan_nal, scan_nals, is_due, picture, emit, scan_start, returned,
  after_payload, depacketize_frames,
}
use liveforge.Rtp.H264.Frames.Same.{IsSame, payload_lem}

-- the payload of the sequence header that was returned last
abbrev pub latest : Option (List ℕ) → List Frame → Option (List ℕ)
latest a [] = a
latest a (f ∷ fs) =
    latest (if f.frame_type == frame_type_sequence_header then some f.payload else a) fs

abbrev pub frames_of : Result Error (List Frame) → List Frame
frames_of (ok frames) = frames
frames_of (err e) = []

-- While the configuration counts as sent, the last one was that of the parameter sets.
abbrev pub IsAnnounced : H264Depacketizer → Option (List ℕ) → Type 0
IsAnnounced d a = d.config_sent ≡ true → a ≡ some (build_config d.sps d.pps)

abbrev pub new_depacketizer : H264Depacketizer
new_depacketizer = record {
  buf = none;
  fu_sequence = 0;
  fu_timestamp = 0;
  fu_ssrc = 0;
  fu_payload_type = 0;
  fu_fragments = 0;
  sps = [];
  pps = [];
  config_sent = false;
}

-- All packets so far, with the sequence header that was returned last.
pub data Run : H264Depacketizer → Option (List ℕ) → Type 0 where
  start : Run new_depacketizer none
  next :
      {d : H264Depacketizer} {a : Option (List ℕ)} {r : Result Error (List Frame)}
      {e : H264Depacketizer} (p : Packet)
      → Run d a
      → depacketize_frames d p ≡ (r, e)
      → Run e (latest a (frames_of r))

-- What the loop over the NAL units keeps.
abbrev IsKept : Option (List ℕ) → Scan → Type 0
IsKept a s = IsAnnounced s.state a × ((s.frame_type == frame_type_sequence_header) ≡ false)

choose_of : {A : Type 0} (P : A → Type 0) (b : Bool) {x y : A} → P x → P y → P (if b then x else y)
choose_of P true p q = p
choose_of P false p q = q

scan_nal_lem :
    (a : Option (List ℕ)) (nal : List ℕ) (s : Scan) → IsKept a s → IsKept a (scan_nal nal s)
unfolding scan_nal
scan_nal_lem a nal s (k, t) =
    let kind : ℕ = get_or nal 0 0 % 32 in
    choose_of (IsKept a) (kind == 1) (k, t)
      (choose_of (IsKept a) (kind == 5) (k, refl)
        (choose_of (IsKept a) (kind == 7)
          (
            choose_of (λ d. IsAnnounced d a) (bytes_equal s.state.sps nal) k
                (λ e. absurd (false≢true e)),
            t,
          )
          (choose_of (IsKept a) (kind == 8)
            (
              choose_of (λ d. IsAnnounced d a) (bytes_equal s.state.pps nal) k
                  (λ e. absurd (false≢true e)),
              t,
            )
            (k, t))))

scan_nals_lem :
    (fuel : ℕ) (a : Option (List ℕ)) (left : List ℕ) (s : Scan)
    → IsKept a s
    → IsKept a (scan_nals fuel left s)
unfolding scan_nals
scan_nals_lem fuel a [] s k = k
scan_nals_lem zero a (b ∷ left) s k = k
scan_nals_lem (suc fuel) a (b ∷ left) s k =
    scan_nals_lem fuel a (drop (be32 (b ∷ left) 0) (drop 4 (b ∷ left))) _
      (scan_nal_lem a (take (be32 (b ∷ left) 0) (drop 4 (b ∷ left))) s k)

-- What holds of the frames and the state that are returned.
abbrev IsGood : Option (List ℕ) → List Frame × H264Depacketizer → Type 0
IsGood a (frames, e) =
    IsAnnounced e (latest a frames)
    × (frames ≢ [] → 0 < length e.sps → 0 < length e.pps → e.config_sent ≡ true)

media_lem :
    (vcl : Bool) (a : Option (List ℕ)) (t : ℕ) (nals : List ℕ)
    → (t == frame_type_sequence_header) ≡ false
    → latest a (if vcl then picture t nals ∷ [] else []) ≡ a
unfolding new_frame
media_lem true a t nals h = rw h refl
media_lem false a t nals h = refl

due_lem :
    (sent : Bool) (m n : ℕ)
    → (not sent && (ltb 0 m && ltb 0 n)) ≡ false
    → 0 < m
    → 0 < n
    → sent ≡ true
due_lem true m n h p q = refl
due_lem false m n h p q = ground (arith, h)

emit_lem : (a : Option (List ℕ)) (nals : List ℕ) (s : Scan) → IsKept a s → IsGood a (emit nals s)
unfolding emit new_frame
emit_lem a nals s (k, t) =
    let type : ℕ =
      if s.has_vcl && s.has_parameter_sets then frame_type_keyframe else s.frame_type in
    let plain : (type == frame_type_sequence_header) ≡ false =
      choose_of (λ x. (x == frame_type_sequence_header) ≡ false) (s.has_vcl && s.has_parameter_sets)
        refl t in
    elim (Bool-cases (is_due s.state)) [
      | inl d ↦ rw d (
        (λ _. media_lem s.has_vcl (some (build_config s.state.sps s.state.pps)) type nals plain),
        λ _ _ _. refl,
      )
      | inr d ↦ rw d (
        (λ e. media_lem s.has_vcl a type nals plain ∙ k e),
        λ _ m n. due_lem s.state.config_sent (length s.state.sps) (length s.state.pps) d m n,
      )
    ]

same-IsAnnounced :
    (d e : H264Depacketizer) (a : Option (List ℕ)) → IsSame d e → IsAnnounced d a → IsAnnounced e a
same-IsAnnounced d e a (sps, pps, sent) k on =
    k (sym sent ∙ on) ∙ ap₂ (λ x y. some (build_config x y)) (sym sps) (sym pps)

-- What holds of the result of a packet.
abbrev IsFine : Option (List ℕ) → Result Error (List Frame) × H264Depacketizer → Type 0
IsFine a (r, e) = IsGood a (frames_of r, e)

nothing_returned : (d : H264Depacketizer) (a : Option (List ℕ)) → IsAnnounced d a → IsGood a ([], d)
nothing_returned d a k = (k, λ ne. absurd (ne refl))

returned_lem :
    (a : Option (List ℕ)) (x : List Frame × H264Depacketizer) → IsGood a x → IsFine a (returned x)
returned_lem a (frames, d) g = g

after_payload_lem :
    (a : Option (List ℕ)) (x : Result Error (Option (List ℕ)) × H264Depacketizer)
    → IsAnnounced (x.1) a
    → IsFine a (after_payload x)
after_payload_lem a (err e, d) k = nothing_returned d a k
after_payload_lem a (ok none, d) k = nothing_returned d a k
after_payload_lem a (ok (some []), d) k = nothing_returned d a k
after_payload_lem a (ok (some (b ∷ nals)), d) k =
    returned_lem a (emit (b ∷ nals) (scan_nals (length (b ∷ nals)) (b ∷ nals) (scan_start d))) (
      emit_lem a (b ∷ nals) (scan_nals (length (b ∷ nals)) (b ∷ nals) (scan_start d))
        (scan_nals_lem (length (b ∷ nals)) a (b ∷ nals) (scan_start d) (k, refl)))

frames_lem :
    (d : H264Depacketizer) (p : Packet) (a : Option (List ℕ))
    → IsAnnounced d a
    → IsFine a (depacketize_frames d p)
unfolding depacketize_frames
frames_lem d p a k =
    after_payload_lem a (depacketize_payload d p)
      (same-IsAnnounced d ((depacketize_payload d p).1) a (payload_lem d p) k)

Run-IsAnnounced : {d : H264Depacketizer} {a : Option (List ℕ)} → Run d a → IsAnnounced d a
Run-IsAnnounced start = λ e. absurd (false≢true e)
Run-IsAnnounced (next {d = d} {a = a} p run made) =
    (subst (IsFine a) made (frames_lem d p a (Run-IsAnnounced run))).0

-- In every run over any packets from a new depacketizer: when a packet returns frames and a SPS and a PPS
-- are known, then the last sequence header returned up to then, with these frames, is the one built
-- from the present SPS and PPS.
pub announced_first :
    (d e : H264Depacketizer) (a : Option (List ℕ)) (p : Packet) (frames : List Frame)
    → Run d a
    → depacketize_frames d p ≡ (ok frames, e)
    → frames ≢ []
    → 0 < length e.sps
    → 0 < length e.pps
    → latest a frames ≡ some (build_config e.sps e.pps)
announced_first d e a p frames run made some_frame sps pps =
    let (k, sent) = subst (IsFine a) made (frames_lem d p a (Run-IsAnnounced run)) in
    k (sent some_frame sps pps)
