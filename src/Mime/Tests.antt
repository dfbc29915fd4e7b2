-- ===== src/Mime/Tests.antt =====
-- Content types of some paths.
use ceasy.Prelude.{◌≡◌, map, refl, codes, arith}
use ceasy.StringView.{view, equal_ignore_case, from, slice}
use ceasy.StringView.Bytes.{same_ignore_case, ascii_lower}
use ceasy.Mime.{after_slash, last_dot, type_of_extension, asset_content_type}
use ceasy.Mime.Extension.{types, lookup, asset_content_type-lookup}

type_of_css :
    asset_content_type (view (codes "/a.b/site.min.CSS")) ≡ view (codes "text/css; charset=utf-8")
unfolding asset_content_type after_slash last_dot type_of_extension equal_ignore_case
    same_ignore_case from slice
type_of_css = refl

asset_content_type-lookup_example :
    asset_content_type (view (codes "/a.b/site.min.CSS"))
    ≡ view (lookup types (map ascii_lower (codes ".CSS")))
asset_content_type-lookup_example =
    asset_content_type-lookup (codes "/a.b/site.min") (codes "CSS") (omega arith)
      (omega arith, (omega arith, (omega arith, tt)))
      (omega arith, (omega arith, (omega arith, tt)))
