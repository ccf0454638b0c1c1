-- ===== src/AvFrame/Codec.antt =====
-- pkg/avframe: the values of `CodecType`, video codecs from 1 and audio codecs from 50.
use liveforge.Base.{ℕ}

abbrev pub h264 : ℕ
h264 = 1

abbrev pub h265 : ℕ
h265 = 2

abbrev pub av1 : ℕ
av1 = 3

abbrev pub vp8 : ℕ
vp8 = 4

abbrev pub vp9 : ℕ
vp9 = 5

abbrev pub aac : ℕ
aac = 50

abbrev pub opus : ℕ
opus = 51

abbrev pub mp3 : ℕ
mp3 = 52

abbrev pub g711a : ℕ
g711a = 53

abbrev pub g711u : ℕ
g711u = 54

abbrev pub g722 : ℕ
g722 = 55

abbrev pub g729 : ℕ
g729 = 56

abbrev pub speex : ℕ
speex = 57
