-- ===== src/Index/Tag.antt =====
-- internal/index/tag_key.go and source_key.go: secondary keys by tag and by source id. Both have the
-- layout of Index/Segment.antt.
pub mod Laws
use hexxladb.Base.{ℕ, List, Option, Result}
use hexxladb.Bytes.Slices.{codes}
use hexxladb.Lattice.PackedCoord.{PackedCoord}
use hexxladb.Index.Errors.{KeyError, tag_too_long, source_id_too_long}
use hexxladb.Index.Segment.{
  segment_key, segment_key_with_version, range_prefix, range_prefix_all_versions, parse_segment,
  parse_segment_with_seq,
}

abbrev pub tag_prefix : List ℕ
tag_prefix = codes "tag/"

abbrev pub max_tag_bytes : ℕ
max_tag_bytes = 220

-- TagKey
unfoldable pub tag_key : List ℕ → PackedCoord → Result KeyError (List ℕ)
tag_key = segment_key tag_prefix max_tag_bytes tag_too_long

-- TagKeyWithVersion
unfoldable pub tag_key_with_version : List ℕ → PackedCoord → ℕ → Result KeyError (List ℕ)
tag_key_with_version = segment_key_with_version tag_prefix max_tag_bytes tag_too_long

-- TagRangePrefix
unfoldable pub tag_range_prefix : List ℕ → Result KeyError (List ℕ × List ℕ)
tag_range_prefix = range_prefix tag_prefix max_tag_bytes tag_too_long

-- TagRangePrefixAllVersions
unfoldable pub tag_range_prefix_all_versions : List ℕ → Result KeyError (List ℕ × List ℕ)
tag_range_prefix_all_versions = range_prefix_all_versions tag_prefix max_tag_bytes tag_too_long

-- ParseTagKey
unfoldable pub parse_tag_key : List ℕ → Result KeyError (List ℕ × PackedCoord)
parse_tag_key = parse_segment tag_prefix max_tag_bytes

-- ParseTagKeyWithSeq
unfoldable pub parse_tag_key_with_seq : List ℕ → Result KeyError (List ℕ × PackedCoord × Option ℕ)
parse_tag_key_with_seq = parse_segment_with_seq tag_prefix max_tag_bytes

-- TagFamilyScanBounds
unfoldable pub tag_family_scan_bounds : List ℕ × List ℕ
tag_family_scan_bounds = (tag_prefix, codes "tau")

abbrev pub source_prefix : List ℕ
source_prefix = codes "source/"

abbrev pub max_source_id_bytes : ℕ
max_source_id_bytes = 220

-- SourceKey
unfoldable pub source_key : List ℕ → PackedCoord → Result KeyError (List ℕ)
source_key = segment_key source_prefix max_source_id_bytes source_id_too_long

-- SourceKeyWithVersion
unfoldable pub source_key_with_version : List ℕ → PackedCoord → ℕ → Result KeyError (List ℕ)
source_key_with_version =
    segment_key_with_version source_prefix max_source_id_bytes source_id_too_long

-- SourceRangePrefix
unfoldable pub source_range_prefix : List ℕ → Result KeyError (List ℕ × List ℕ)
source_range_prefix = range_prefix source_prefix max_source_id_bytes source_id_too_long

-- SourceRangePrefixAllVersions
unfoldable pub source_range_prefix_all_versions : List ℕ → Result KeyError (List ℕ × List ℕ)
source_range_prefix_all_versions =
    range_prefix_all_versions source_prefix max_source_id_bytes source_id_too_long

-- ParseSourceKey
unfoldable pub parse_source_key : List ℕ → Result KeyError (List ℕ × PackedCoord)
parse_source_key = parse_segment source_prefix max_source_id_bytes

-- ParseSourceKeyWithSeq
unfoldable pub parse_source_key_with_seq :
    List ℕ → Result KeyError (List ℕ × PackedCoord × Option ℕ)
parse_source_key_with_seq = parse_segment_with_seq source_prefix max_source_id_bytes
