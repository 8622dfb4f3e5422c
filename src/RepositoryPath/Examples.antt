-- ===== src/RepositoryPath/Examples.antt =====
-- Names of repositories, encoded.
use donsy.Prelude.{◌≡◌, refl}
use donsy.Text.{codes}
use donsy.Errors.{ok}
use donsy.RepositoryPath.{encode, decode}
use donsy.RepositoryPath.RoundTrip.{decode-encode}

encoded_name : encode (codes "acme/my_app") ≡ codes "acme__my_uapp"
unfolding encode
encoded_name = refl

-- A slash that stands in a component is read as it is.
plain_slash : decode (codes "acme/app") ≡ decode (codes "acme__app")
unfolding decode
plain_slash = refl

decode-encode_example : decode (encode (codes "acme/my_app")) ≡ ok (codes "acme/my_app")
decode-encode_example = decode-encode (codes "acme/my_app")
