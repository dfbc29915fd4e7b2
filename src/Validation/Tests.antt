-- ===== src/Validation/Tests.antt =====
-- Values that are validated.
use ceasy.Prelude.{◌≡◌, ◌↔◌, true, false, refl, codes}
use ceasy.StringView.{view}
use ceasy.StringView.Bytes.{ascii_space}
use ceasy.Validation.{email_scan, email_like}
use ceasy.Validation.Email.{IsEmail, email_like_iff}

accepts_email : email_like ascii_space (view (codes "a@b.org")) ≡ true
unfolding email_like email_scan ascii_space
accepts_email = refl

not_space : ascii_space b'@' ≡ false
unfolding ascii_space
not_space = refl

email_like_iff_example :
    (email_like ascii_space (view (codes "a@b.org")) ≡ true) ↔ IsEmail ascii_space (codes "a@b.org")
email_like_iff_example = email_like_iff ascii_space not_space (codes "a@b.org")
