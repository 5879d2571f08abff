-- ===== src/Image/Filtering.antt =====
-- cluster/image.go, Images.Filter. The filters of a request and the package reference are
-- parameters. The filter `dangling` gives an image without tags the tag <none>:<none>, in place; so
-- the function returns all images as it leaves them, and those that pass.
use classicswarm.Prelude.{
  Bool, true, false, not, ◌&&◌, ◌||◌, List, [], ◌∷◌, ◌++◌, Option, none, some, any, find_first,
  is_empty, if◌then◌else◌,
}
use classicswarm.Text.{Str, codes, str_eq}
use classicswarm.Int64.{ℤ, ltb_ℤ}
use classicswarm.Assoc.{Assoc}
use classicswarm.Image.{Image, parse_repository_tag, match_image}
use classicswarm.Network.{FilterArgs}

-- An image with the fields that only the filter reads.
pub record ListedImage : Type 0 where
  pub image : Image
  pub labels : Assoc Str
  pub created : ℤ

-- ImageFilterOptions; `no_filters` is Filters.Len() == 0, and `familiar` whether a candidate parses
-- as a reference and matches a pattern without an error.
pub record ImageFilterOptions : Type 0 where
  pub all : Bool
  pub filters : FilterArgs
  pub no_filters : Bool
  pub familiar : (pattern candidate : Str) → Bool

abbrev no_tag : Str
no_tag = codes "<none>:<none>"

-- The list is not empty and does not begin with the entry.
unfoldable pub begins_otherwise : Str → List Str → Bool
unfolding str_eq
begins_otherwise entry [] = false
begins_otherwise entry (t ∷ ts) = not (str_eq t entry)

module _ (o : ImageFilterOptions) where
  unfoldable pub include_all : ListedImage → Bool
  unfolding begins_otherwise
  include_all i =
      o.all
      || (begins_otherwise no_tag i.image.repo_tags
          || (begins_otherwise (codes "<none>@<none>") i.image.repo_digests
              || o.filters.include (codes "dangling")))

  unfoldable pub include_filter : ListedImage → Bool
  include_filter i = o.no_filters || o.filters.match_kv_list (codes "label") i.labels

  -- The candidates: each entry, and the name of its repository.
  unfoldable pub candidates : List Str → List Str
  unfolding parse_repository_tag
  candidates [] = []
  candidates (t ∷ ts) = t ∷ (parse_repository_tag t).0 ∷ candidates ts

  unfoldable pub reference_filter : ListedImage → Str → Bool
  unfolding any candidates
  reference_filter i filter =
      not (o.filters.include filter)
      || any (λ c. any (λ p. o.familiar p c) (o.filters.values_of filter))
          (candidates i.image.repo_tags ++ candidates i.image.repo_digests)

  unfoldable pub only_value : List Str → Str
  only_value [] = []
  only_value (v ∷ []) = v
  only_value (v ∷ w ∷ vs) = []

  unfoldable pub get_id_or_name : (field : Str) → Str
  unfolding only_value
  get_id_or_name field =
      if not (o.filters.include field) then [] else only_value (o.filters.values_of field)

  unfoldable pub get_image_from_field : (field : Str) → List ListedImage → Option ListedImage
  unfolding get_id_or_name is_empty find_first match_image
  get_image_from_field field is =
      let query = get_id_or_name field in
      if is_empty query then none else find_first (λ i. match_image i.image query false) is

  unfoldable pub before_filter : ListedImage → Option ListedImage → Bool
  before_filter i none = true
  before_filter i (some b) = ltb_ℤ i.created b.created

  unfoldable pub since_filter : ListedImage → Option ListedImage → Bool
  since_filter i none = true
  since_filter i (some b) = ltb_ℤ b.created i.created

  -- What the filter `dangling` makes of an image.
  unfoldable pub with_tags : ListedImage → ListedImage
  unfolding is_empty
  with_tags i =
      if o.filters.include (codes "dangling") && is_empty i.image.repo_tags
      then record i { image = record i.image { repo_tags = no_tag ∷ [] } }
      else i

  -- Its test, of an image that has a tag if the filter is there.
  unfoldable pub dangling_filter : ListedImage → Bool
  unfolding begins_otherwise
  dangling_filter i =
      not (o.filters.include (codes "dangling"))
      || (not (
            o.filters.exact_match (codes "dangling") (codes "true")
            && begins_otherwise no_tag i.image.repo_tags)
          && not (
              o.filters.exact_match (codes "dangling") (codes "false")
              && not (begins_otherwise no_tag i.image.repo_tags)))

  -- The loop: all images, and those that pass.
  unfoldable pub filter_each :
      (before since : Option ListedImage) → List ListedImage → List ListedImage × List ListedImage
  unfolding include_all include_filter reference_filter with_tags dangling_filter before_filter
      since_filter
  filter_each before since [] = ([], [])
  filter_each before since (i ∷ is) =
      let (every, passed) = filter_each before since is in
      if include_all i && (include_filter i && reference_filter i (codes "reference"))
      then (let j = with_tags i in
          (
            j ∷ every,
            if dangling_filter j && (before_filter j before && since_filter j since)
                then j ∷ passed
                else passed,
          ))
      else (i ∷ every, passed)

  unfoldable pub filter_images : List ListedImage → List ListedImage × List ListedImage
  unfolding filter_each get_image_from_field
  filter_images is =
      filter_each (get_image_from_field (codes "before") is)
        (get_image_from_field (codes "since") is) is
