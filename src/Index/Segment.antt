-- ===== src/Index/Segment.antt =====
-- internal/index/secondary_segment.go, and the layout that the tag/ and source/ keys share:
-- a prefix, a length-prefixed text, '/', a coordinate and perhaps a commit sequence.
pub mod Read
pub mod Range
use hexxladb.Base.{
  ℕ, ◌+◌, ◌-◌, ◌^◌, ◌<◌, List, [], ◌∷◌, ◌++◌, Option, none, some, Bool, ◌||◌, length, take, drop,
  get_or, ltb, ◌==◌, if◌then◌else◌, Result, ok, err, ◌>>=◌,
}
use hexxladb.Bytes.BigEndian.{be, of_be}
use hexxladb.Bytes.Slices.{cut_prefix, slice}
use hexxladb.Lattice.PackedCoord.{PackedCoord}
use hexxladb.Index.Errors.{KeyError, wrong_prefix, bad_length, bad_separator, truncated, bad_layout}
use hexxladb.Index.Packed.{packed_be, of_packed_be, min_packed, max_packed}

-- appendLenPrefixedUTF8
unfoldable pub append_len_prefixed_utf8 : List ℕ → List ℕ → ℕ → KeyError → Result KeyError (List ℕ)
append_len_prefixed_utf8 dst id max_bytes too_long =
    if ltb max_bytes (length id)
    then err too_long
    else if ltb 0xffff (length id)
    then err too_long
    else ok (dst ++ be 2 (length id) ++ id)

-- TagKey, SourceKey
unfoldable pub segment_key : List ℕ → ℕ → KeyError → List ℕ → PackedCoord → Result KeyError (List ℕ)
unfolding append_len_prefixed_utf8
segment_key prefix max_bytes too_long id p = do
  buf ← append_len_prefixed_utf8 prefix id max_bytes too_long
  ok (buf ++ b'/' ∷ [] ++ packed_be p)

-- TagKeyWithVersion, SourceKeyWithVersion
unfoldable pub segment_key_with_version :
    List ℕ → ℕ → KeyError → List ℕ → PackedCoord → ℕ → Result KeyError (List ℕ)
unfolding segment_key
segment_key_with_version prefix max_bytes too_long id p commit_seq = do
  base ← segment_key prefix max_bytes too_long id p
  ok (base ++ be 8 commit_seq)

-- lenPrefixedIDPrefixAfterASCII
unfoldable pub len_prefixed_id_prefix_after_ascii :
    List ℕ → List ℕ → ℕ → KeyError → Result KeyError (List ℕ)
len_prefixed_id_prefix_after_ascii ascii_prefix id max_bytes too_long =
    if ltb max_bytes (length id)
    then err too_long
    else if ltb 0xffff (length id)
    then err too_long
    else ok (ascii_prefix ++ be 2 (length id) ++ id ++ b'/' ∷ [])

-- TagRangePrefix, SourceRangePrefix: the bounds over all coordinates.
unfoldable pub range_prefix : List ℕ → ℕ → KeyError → List ℕ → Result KeyError (List ℕ × List ℕ)
unfolding len_prefixed_id_prefix_after_ascii
range_prefix prefix max_bytes too_long id = do
  head ← len_prefixed_id_prefix_after_ascii prefix id max_bytes too_long
  ok (head ++ packed_be min_packed, head ++ packed_be max_packed)

-- TagRangePrefixAllVersions, SourceRangePrefixAllVersions: the bounds over all versions too.
unfoldable pub range_prefix_all_versions :
    List ℕ → ℕ → KeyError → List ℕ → Result KeyError (List ℕ × List ℕ)
unfolding range_prefix
range_prefix_all_versions prefix max_bytes too_long id = do
  bounds ← range_prefix prefix max_bytes too_long id
  ok (bounds.0 ++ be 8 0, bounds.1 ++ be 8 (2 ^ 64 - 1))

-- The end of the key: a coordinate, or a coordinate and a commit sequence.
read_tail : List ℕ → List ℕ → Result KeyError (List ℕ × PackedCoord × Option ℕ)
read_tail id rest =
    if length rest == 16
    then ok (id, of_packed_be rest, none)
    else if length rest == 24
    then ok (id, of_packed_be (take 16 rest), some (of_be (drop 16 rest)))
    else err bad_length

-- The same, for a reader that does not want the commit sequence.
read_tail_plain : List ℕ → List ℕ → Result KeyError (List ℕ × PackedCoord)
read_tail_plain id rest =
    if length rest == 16
    then ok (id, of_packed_be rest)
    else if length rest == 24
    then ok (id, of_packed_be (take 16 rest))
    else err bad_length

module _ {A : Type 0} (tail : List ℕ → List ℕ → Result KeyError A) where
  read_layout : ℕ → ℕ → List ℕ → Result KeyError A
  read_layout max_bytes n rest =
      if ltb max_bytes n || ltb (length rest) (n + 1 + 16)
      then err bad_layout
      else if get_or (drop n rest) 0 0 == b'/'
      then tail (take n rest) (drop 1 (drop n rest))
      else err bad_separator

  read_after_prefix : ℕ → Option (List ℕ) → Result KeyError A
  unfolding read_layout
  read_after_prefix max_bytes none = err wrong_prefix
  read_after_prefix max_bytes (some rest) =
      if ltb (length rest) 2
      then err truncated
      else read_layout max_bytes (of_be (slice rest 0 2)) (drop 2 rest)

-- ParseTagKey, ParseSourceKey
unfoldable pub parse_segment : List ℕ → ℕ → List ℕ → Result KeyError (List ℕ × PackedCoord)
unfolding read_after_prefix read_tail_plain
parse_segment prefix max_bytes key =
    read_after_prefix read_tail_plain max_bytes (cut_prefix prefix key)

-- ParseTagKeyWithSeq, ParseSourceKeyWithSeq: `some` commit sequence where they set hasSeq.
unfoldable pub parse_segment_with_seq :
    List ℕ → ℕ → List ℕ → Result KeyError (List ℕ × PackedCoord × Option ℕ)
unfolding read_after_prefix read_tail
parse_segment_with_seq prefix max_bytes key =
    read_after_prefix read_tail max_bytes (cut_prefix prefix key)
