-- ===== src/Rtp/H264/Reassembly.antt =====
-- pkg/rtp/h264_depacketize.go: all the packets of a fragmented NAL unit, one after the other.
use liveforge.Base.{
  ℕ, suc, ◌+◌, ◌*◌, ◌/◌, ◌%◌, ◌≤◌, ◌<◌, ◌≡◌, refl, sym, ap, ◌∙◌, subst, Bool, true, false, ◌&&◌,
  ◌||◌, Option, none, some, List, [], ◌∷◌, ◌++◌, concat, replicate, arith, ltb, leb, ◌==◌, length,
  length-append, append_assoc, get_or, le→ltb_false, lt→leb_false, Bool-cases, inl, inr,
}
use liveforge.Bytes.{Result, ok}
use liveforge.Rtp.{Packet}
use liveforge.Rtp.H264.{
  Error, max_nal_bytes, max_fu_fragments, max_parameter_bytes, H264Depacketizer, reset_fu,
  validate_nal, nal_to_avcc, or_reset, depacketize_fu, depacketize_payload,
}
use liveforge.Rtp.H264.Fragments.{
  IsNalHeader, Track, fu_packet, receiving, fu_checked, first_step, middle_step, last_step,
}

-- the outputs for packets in their order, and the state after them
abbrev pub feed :
    H264Depacketizer → List Packet → List (Result Error (Option (List ℕ))) × H264Depacketizer
feed d [] = ([], d)
feed d (p ∷ ps) =
    let (output, d1) = depacketize_payload d p in
    let (outputs, d2) = feed d1 ps in (output ∷ outputs, d2)

-- the packets after the first, which has the number `seq`
abbrev pub later_packets : Track → ℕ → ℕ → Bool → List (List ℕ) → List ℕ → List Packet
later_packets t seq h marker [] last = fu_packet t (suc seq) h false true marker last ∷ []
later_packets t seq h marker (piece ∷ pieces) last =
    fu_packet t (suc seq) h false false false piece ∷ later_packets t (suc seq) h marker pieces last

-- A NAL unit with the header `h` in fragments (RFC 6184): the first piece, those between, and the last.
abbrev pub fragmented : Track → ℕ → ℕ → Bool → List ℕ → List (List ℕ) → List ℕ → List Packet
fragmented t seq h marker first between last =
    fu_packet t seq h true false false first ∷ later_packets t seq h marker between last

abbrev pub body : List ℕ → List (List ℕ) → List ℕ → List ℕ
body first between last = first ++ (concat between ++ last)

-- the outputs: nothing until the last packet
abbrev pub outputs : ℕ → List ℕ → List (Result Error (Option (List ℕ)))
outputs n nal = replicate n (ok none) ++ (ok (some (nal_to_avcc nal)) ∷ [])

-- The limits of the receiver, which are tighter for parameter sets.
pub record IsNal (h : ℕ) (rest : List ℕ) : Type 0 where
  pub header : IsNalHeader h
  pub size : length (h ∷ rest) ≤ max_nal_bytes
  pub parameters : ((h % 32 == 7) || (h % 32 == 8)) ≡ true → length (h ∷ rest) ≤ max_parameter_bytes

validate_nal_lem : (h : ℕ) (rest : List ℕ) → IsNal h rest → validate_nal (h ∷ rest) ≡ ok tt
unfolding validate_nal
validate_nal_lem h rest w =
    let (lt, k_pos, k_lt) = w.header in
    let high : leb 128 h ≡ false = lt→leb_false 128 h lt in
    let k0 : (h % 32 == 0) ≡ false = ground (arith, k_pos) in
    let k24 : leb 24 (h % 32) ≡ false = lt→leb_false 24 (h % 32) k_lt in
    let small : ltb max_nal_bytes (length (h ∷ rest)) ≡ false = le→ltb_false _ _ w.size in
    let set : (((h % 32 == 7) || (h % 32 == 8)) && ltb max_parameter_bytes (length (h ∷ rest)))
        ≡ false =
      elim (Bool-cases ((h % 32 == 7) || (h % 32 == 8))) [
        | inl p ↦ rw p (le→ltb_false _ _ (w.parameters p))
        | inr p ↦ rw p refl
      ] in
    rw (high, k0, k24, small, set) refl

step :
    (d e : H264Depacketizer) (p : Packet) (h fu : ℕ) (piece : List ℕ) (output : Option (List ℕ))
    → IsNalHeader h
    → p.payload ≡ (h / 32 * 32 + 28) ∷ (fu ∷ piece)
    → depacketize_fu d p ≡ ok (output, e)
    → depacketize_payload d p ≡ (ok output, e)
unfolding depacketize_payload
step d e p h fu piece output valid shape made =
    ap (or_reset d) (fu_checked d p h fu piece valid shape ∙ made)

fed :
    (d e : H264Depacketizer) (p : Packet) (ps : List Packet) (x : Result Error (Option (List ℕ)))
    (xs : List (Result Error (Option (List ℕ)))) (end : H264Depacketizer)
    → depacketize_payload d p ≡ (x, e)
    → feed e ps ≡ (xs, end)
    → feed d (p ∷ ps) ≡ (x ∷ xs, end)
fed d e p ps x xs end one more = rw (one, more) refl

module _ (d : H264Depacketizer) (t : Track) (h : ℕ) (marker : Bool) (valid : IsNalHeader h) where
  head_stays : (buf more : List ℕ) → get_or buf 0 0 ≡ h → get_or (buf ++ more) 0 0 ≡ h
  head_stays [] more e = absurd (omega (arith, valid, e))
  head_stays (b ∷ buf) more e = e

  later_lem :
      (between : List (List ℕ)) (seq n : ℕ) (buf last : List ℕ)
      → get_or buf 0 0 ≡ h
      → n + length between < max_fu_fragments
      → length (buf ++ (concat between ++ last)) ≤ max_nal_bytes
      → validate_nal (buf ++ (concat between ++ last)) ≡ ok tt
      → feed (receiving d t seq n buf) (later_packets t seq h marker between last)
        ≡ (outputs (length between) (buf ++ (concat between ++ last)), reset_fu d)
  later_lem [] seq n buf last head few size good =
      fed _ (reset_fu d) _ [] _ [] (reset_fu d)
        (step _ _ _ h _ last _ valid refl (
          last_step d t h valid seq n buf last marker head (omega (arith, few))
            (omega (arith, size, length-append buf last)) good))
        refl
  later_lem (piece ∷ between) seq n buf last head few size good =
      let same : buf ++ ((piece ++ concat between) ++ last)
          ≡ (buf ++ piece) ++ (concat between ++ last) =
        ap (λ x. buf ++ x) (append_assoc piece (concat between) last)
        ∙ sym (append_assoc buf piece (concat between ++ last)) in
      let size1 : length ((buf ++ piece) ++ (concat between ++ last)) ≤ max_nal_bytes =
        subst (λ x. length x ≤ max_nal_bytes) same size in
      let fits : length buf + length piece ≤ max_nal_bytes = omega (
        arith,
        size1,
        length-append (buf ++ piece) (concat between ++ last),
        length-append buf piece,
      ) in
      fed _ _ _ _ _ _ (reset_fu d)
        (step _ _ _ h _ piece _ valid refl
          (middle_step d t h valid seq n buf piece head (omega (arith, few)) fits))
        (later_lem between (suc seq) (n + 1) (buf ++ piece) last (head_stays buf piece head)
          (omega (arith, few)) size1 (subst (λ x. validate_nal x ≡ ok tt) same good))
      ∙ ap (λ x. (outputs (suc (length between)) x, reset_fu d)) (sym same)

-- A NAL unit from the types and sizes that the receiver takes, split into any pieces (at most 16384) and
-- sent as fragments in packets with consecutive numbers modulo 2 ^ 16: whatever the depacketizer held
-- before, it returns nothing until the last packet and then the NAL unit with its length in front, and
-- forgets the fragments.
pub feed-fragmented :
    (d : H264Depacketizer) (t : Track) (seq h : ℕ) (marker : Bool) (first : List ℕ)
    (between : List (List ℕ)) (last : List ℕ)
    → IsNal h (body first between last)
    → 2 + length between ≤ max_fu_fragments
    → feed d (fragmented t seq h marker first between last)
      ≡ (outputs (suc (length between)) (h ∷ body first between last), reset_fu d)
feed-fragmented d t seq h marker first between last w few =
    let small : length first < max_nal_bytes =
      omega (arith, w.size, length-append first (concat between ++ last)) in
    fed d _ _ _ _ _ (reset_fu d)
      (step d _ _ h _ first none w.header refl (first_step d t h w.header seq first small))
      (later_lem d t h marker w.header between seq 1 (h ∷ first) last refl (omega (arith, few))
        w.size (validate_nal_lem h (body first between last) w))
