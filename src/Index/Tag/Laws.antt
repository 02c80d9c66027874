-- ===== src/Index/Tag/Laws.antt =====
-- Tag and source keys are read back, and the scan ranges of a tag or a source meet its keys alone.
use hexxladb.Base.{ℕ, ◌^◌, ◌≤◌, ◌<◌, ◌≡◌, ◌↔◌, List, some, ok, err, ◌>>=◌, arith, length}
use hexxladb.Bytes.Order.{InRange}
use hexxladb.Lattice.PackedCoord.{PackedCoord, IsWords}
use hexxladb.Index.Errors.{tag_too_long, source_id_too_long}
use hexxladb.Index.Segment.Read.{
  parse-segment_key, parse-segment_key_with_version, segment_key_too_long,
}
use hexxladb.Index.Segment.Range.{range_prefix-InRange, range_prefix_all_versions-InRange}
use hexxladb.Index.Tag.{
  tag_key, tag_key_with_version, tag_range_prefix, tag_range_prefix_all_versions, parse_tag_key,
  parse_tag_key_with_seq, source_key_with_version, parse_source_key_with_seq,
  source_range_prefix_all_versions,
}

-- For a tag of at most 220 bytes and a coordinate of 64-bit words, TagKey gives a key, and from it
-- ParseTagKey reads back the tag and the coordinate.
pub parse-tag_key :
    (tag : List ℕ) (p : PackedCoord)
    → IsWords p
    → length tag ≤ 220
    → (tag_key tag p >>= parse_tag_key) ≡ ok (tag, p)
unfolding tag_key parse_tag_key
parse-tag_key tag p w h = parse-segment_key _ _ tag_too_long (omega arith) tag p w h

-- For a tag of at most 220 bytes, a coordinate of 64-bit words and a 64-bit commit sequence, there is
-- a versioned key, from which the tag, the coordinate and the sequence are read back.
pub parse-tag_key_with_version :
    (tag : List ℕ) (p : PackedCoord) (s : ℕ)
    → IsWords p
    → s < 2 ^ 64
    → length tag ≤ 220
    → (tag_key_with_version tag p s >>= parse_tag_key_with_seq) ≡ ok (tag, p, some s)
unfolding tag_key_with_version parse_tag_key_with_seq
parse-tag_key_with_version tag p s w b h =
    parse-segment_key_with_version _ _ tag_too_long (omega arith) tag p s w b h

-- A tag of more than 220 bytes has no key.
pub tag_key_too_long :
    (tag : List ℕ) (p : PackedCoord) → 220 < length tag → tag_key tag p ≡ err tag_too_long
unfolding tag_key
tag_key_too_long tag p h = segment_key_too_long _ _ _ (omega arith) tag p h

-- For a source id of at most 220 bytes, a coordinate of 64-bit words and a 64-bit commit sequence,
-- there is a versioned key, from which the id, the coordinate and the sequence are read back.
pub parse-source_key_with_version :
    (id : List ℕ) (p : PackedCoord) (s : ℕ)
    → IsWords p
    → s < 2 ^ 64
    → length id ≤ 220
    → (source_key_with_version id p s >>= parse_source_key_with_seq) ≡ ok (id, p, some s)
unfolding source_key_with_version parse_source_key_with_seq
parse-source_key_with_version id p s w b h =
    parse-segment_key_with_version _ _ source_id_too_long (omega arith) id p s w b h

-- Of the keys of all tags of at most 220 bytes, the range of a tag holds exactly those of that tag,
-- at whatever coordinate of 64-bit words.
pub tag_range_prefix-InRange :
    (tag other : List ℕ) (p : PackedCoord) {from to key : List ℕ}
    → IsWords p
    → length tag ≤ 220
    → length other ≤ 220
    → tag_range_prefix tag ≡ ok (from, to)
    → tag_key other p ≡ ok key
    → InRange from to key ↔ (tag ≡ other)
unfolding tag_range_prefix tag_key
tag_range_prefix-InRange tag other p w h k eb ek =
    range_prefix-InRange _ _ _ (omega arith) tag other p w h k eb ek

-- Of the versioned keys of all tags of at most 220 bytes, the range over all versions of a tag holds
-- exactly those of that tag, at whatever coordinate of 64-bit words and 64-bit commit sequence.
pub tag_range_prefix_all_versions-InRange :
    (tag other : List ℕ) (p : PackedCoord) (s : ℕ) {from to key : List ℕ}
    → IsWords p
    → s < 2 ^ 64
    → length tag ≤ 220
    → length other ≤ 220
    → tag_range_prefix_all_versions tag ≡ ok (from, to)
    → tag_key_with_version other p s ≡ ok key
    → InRange from to key ↔ (tag ≡ other)
unfolding tag_range_prefix_all_versions tag_key_with_version
tag_range_prefix_all_versions-InRange tag other p s w b h k eb ek =
    range_prefix_all_versions-InRange _ _ _ (omega arith) tag other p s w b h k eb ek

-- Of the versioned keys of all source ids of at most 220 bytes, the range over all versions of an id
-- holds exactly those of that id, at whatever coordinate of 64-bit words and commit sequence.
pub source_range_prefix_all_versions-InRange :
    (id other : List ℕ) (p : PackedCoord) (s : ℕ) {from to key : List ℕ}
    → IsWords p
    → s < 2 ^ 64
    → length id ≤ 220
    → length other ≤ 220
    → source_range_prefix_all_versions id ≡ ok (from, to)
    → source_key_with_version other p s ≡ ok key
    → InRange from to key ↔ (id ≡ other)
unfolding source_range_prefix_all_versions source_key_with_version
source_range_prefix_all_versions-InRange id other p s w b h k eb ek =
    range_prefix_all_versions-InRange _ _ _ (omega arith) id other p s w b h k eb ek
