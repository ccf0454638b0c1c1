-- ===== src/Flv/File.antt =====
-- pkg/muxer/flv: a whole file, and the loop of `ReadTag` on any bytes.
use liveforge.Base.{
  ℕ, zero, suc, ◌^◌, ◌≤◌, ◌<◌, ◌≡◌, ◌≢◌, refl, ap, ◌∙◌, Bool, true, false, Option, none, some, List,
  [], ◌∷◌, ◌++◌, map, arith, length, get_or,
}
use liveforge.AvFrame.{Frame}
use liveforge.Bytes.{
  Result, ok, err, be24, Ensures, ensured, refused, Ensures-bind, read_full-Ensures,
}
use liveforge.Flv.{Error, end_of_input}
use liveforge.Flv.Mux.{Muxer, write_header, write_frame}
use liveforge.Flv.Demux.{
  Demuxer, read_header, tag_timestamp, parse_tag, read_one_tag, frame_read, failed, out_of_fuel,
  or_skip, read_tag_loop, read_tags, after_file_header, read_tag,
}
use liveforge.Flv.Tags.{IsTimed, carried}
use liveforge.Flv.RoundTrip.{read_one_tag-write_frame}

-- The bytes that the muxer has written for the frames.
pub data Written (m : Muxer) : List Frame → List ℕ → Type 0 where
  nothing : Written m [] []
  then_frame :
      {frame : Frame} {frames : List Frame} {tag bytes : List ℕ}
      → IsTimed frame
      → write_frame m frame ≡ ok tag
      → length tag < 2 ^ 24
      → Written m frames bytes
      → Written m (frame ∷ frames) (tag ++ bytes)

-- Reading tags gives exactly the frames, and then the end of the input.
pub data ReadsAll : Demuxer → List Frame → Type 0 where
  at_end : {d : Demuxer} → read_tag d ≡ failed end_of_input → ReadsAll d []
  reads :
      {d e : Demuxer} {frame : Frame} {frames : List Frame}
      → read_tag d ≡ frame_read frame e
      → ReadsAll e frames
      → ReadsAll d (frame ∷ frames)

abbrev opened : List ℕ → Demuxer
opened bytes = record { source = bytes; header_read = true }

opened_reads : (bytes : List ℕ) → read_tag (opened bytes) ≡ read_tags bytes
unfolding read_tag
opened_reads bytes = refl

tags_end : read_tags [] ≡ failed end_of_input
unfolding read_tag_loop read_one_tag
tags_end = refl

next_tag :
    (source rest : List ℕ) (frame : Frame)
    → read_one_tag source ≡ ok (some frame, rest)
    → read_tags source ≡ frame_read frame (opened rest)
unfolding read_tag_loop
next_tag source rest frame e = ap (or_skip (read_tag_loop (length source))) e

written_reads :
    {m : Muxer} {frames : List Frame} {bytes : List ℕ} (d : Demuxer)
    → read_tag d ≡ read_tags bytes
    → Written m frames bytes
    → ReadsAll d (map (carried m) frames)
written_reads d same nothing = at_end (same ∙ tags_end)
written_reads {m = m} d same
      (then_frame {frame = frame} {tag = tag} {bytes = bytes} timed made size more) =
    reads
      (same
        ∙ next_tag (tag ++ bytes) bytes (carried m frame)
            (read_one_tag-write_frame m frame tag bytes timed made size))
      (written_reads (opened bytes) (opened_reads bytes) more)

abbrev pub file : Bool → Bool → List ℕ → Demuxer
file video audio bytes = record { source = write_header video audio ++ bytes; header_read = false }

file_reads :
    (video audio : Bool) (bytes : List ℕ) → read_tag (file video audio bytes) ≡ read_tags bytes
unfolding read_tag read_header write_header
file_reads video audio bytes = refl

-- A demuxer on a file that the muxer has written, the header and then frames with a DTS from 0 below
-- 2 ^ 32 in tags below 2 ^ 24 bytes, reads exactly these frames, in their order and with what FLV
-- keeps of each, and then the end of the input.
pub read_tag-write_frame :
    (m : Muxer) (frames : List Frame) (bytes : List ℕ) (video audio : Bool)
    → Written m frames bytes
    → ReadsAll (file video audio bytes) (map (carried m) frames)
read_tag-write_frame m frames bytes video audio w =
    written_reads (file video audio bytes) (file_reads video audio bytes) w

abbrev AnyError : Error → Type 0
AnyError e = Unit

any-Ensures : {A : Type 0} (x : Result Error A) → Ensures AnyError (λ _. Unit) x
any-Ensures (ok a) = ensured tt
any-Ensures (err e) = refused tt

abbrev Shrinks : {A : Type 0} → List ℕ → A × List ℕ → Type 0
Shrinks source (a, rest) = length rest < length source

read_one_tag-Ensures : (source : List ℕ) → Ensures AnyError (Shrinks source) (read_one_tag source)
unfolding read_one_tag
read_one_tag-Ensures source =
    Ensures-bind (read_full-Ensures end_of_input 11 source tt) (λ (b, s1) (_, l1).
      Ensures-bind (read_full-Ensures end_of_input (be24 b 1) s1 tt) (λ (body, s2) (_, l2).
        Ensures-bind (read_full-Ensures end_of_input 4 s2 tt) (λ (p, s3) (_, l3).
          Ensures-bind (any-Ensures (parse_tag (get_or b 0 0) body (tag_timestamp b)))
            (λ frame _. ensured (omega (arith, l1, l2, l3))))))

or_skip_ends :
    (fuel : ℕ) (source : List ℕ) {x : Result Error (Option Frame × List ℕ)}
    → Ensures AnyError (Shrinks source) x
    → length source ≤ fuel
    → ((rest : List ℕ) → length rest < fuel → read_tag_loop fuel rest ≢ out_of_fuel)
    → or_skip (read_tag_loop fuel) x ≢ out_of_fuel
or_skip_ends fuel source (ensured {a = (some frame, rest)} lt) le again e = cc
or_skip_ends fuel source (ensured {a = (none, rest)} lt) le again e =
    again rest (omega (arith, lt, le)) e
or_skip_ends fuel source (refused _) le again e = cc

read_tag_loop_ends :
    (fuel : ℕ) (source : List ℕ) → length source < fuel → read_tag_loop fuel source ≢ out_of_fuel
unfolding read_tag_loop
read_tag_loop_ends zero source lt = absurd (omega arith)
read_tag_loop_ends (suc fuel) source lt =
    or_skip_ends fuel source (read_one_tag-Ensures source) (omega arith) (read_tag_loop_ends fuel)

after_header_ends : (x : Result Error (List ℕ)) → after_file_header x ≢ out_of_fuel
after_header_ends (ok source) e = read_tag_loop_ends (suc (length source)) source (omega arith) e
after_header_ends (err x) e = cc

tag_ends :
    (read : Bool) (source : List ℕ)
    → read_tag (record { source = source; header_read = read }) ≢ out_of_fuel
unfolding read_tag
tag_ends true source e = read_tag_loop_ends (suc (length source)) source (omega arith) e
tag_ends false source e = after_header_ends (read_header source) e

-- On any bytes, the loop of ReadTag over skipped tags ends with a frame or an error.
pub read_tag_ends : (d : Demuxer) → read_tag d ≢ out_of_fuel
read_tag_ends d = tag_ends d.header_read d.source
