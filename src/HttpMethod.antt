-- ===== src/HttpMethod.antt =====
-- `HttpMethod` of include/ceasy/http/request.h and its parser in src/http/request.c.
use ceasy.Prelude.{ℕ, Bool, List, Option, codes, if◌then◌else◌, ◌==◌}
use ceasy.StringView.{StringView, view, from_cstr, equal}

pub data HttpMethod : Type 0 where
  unknown get post patch put delete : HttpMethod

-- http_method_parse_view
unfoldable pub parse_view : StringView → HttpMethod
parse_view method =
    if equal method (view (codes "GET"))
    then get
    else if equal method (view (codes "POST"))
    then post
    else if equal method (view (codes "PATCH"))
    then patch
    else if equal method (view (codes "PUT"))
    then put
    else if equal method (view (codes "DELETE"))
    then delete
    else unknown

-- http_method_parse and http_method_parse_cstr
unfoldable pub parse_cstr : Option (List ℕ) → HttpMethod
unfolding parse_view
parse_cstr method = parse_view (from_cstr method)

-- `a == b` on the enumeration, by the number that C gives each constant.
abbrev pub number : HttpMethod → ℕ
number unknown = 0
number get = 1
number post = 2
number patch = 3
number put = 4
number delete = 5

abbrev pub method_eq : HttpMethod → HttpMethod → Bool
method_eq a b = number a == number b
