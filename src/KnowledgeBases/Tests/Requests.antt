-- ===== src/KnowledgeBases/Tests/Requests.antt =====
-- Requests with the key of the first knowledge base.
use shiori_api.Shared.{◌≡◌, refl, true, some, codes, filter, trim, is_space}
use shiori_api.Tenancy.{ok}
use shiori_api.KnowledgeBases.Store.{validate}
use shiori_api.KnowledgeBases.Store.Kept.{other}
use shiori_api.KnowledgeBases.Rest.{Environment, delete_own, handle}
use shiori_api.KnowledgeBases.Rest.Isolation.{handle-Keeps}
use shiori_api.KnowledgeBases.Tests.{valid, kit, hash, base, store}

abbrev environment : Environment
environment = record {
  valid = valid;
  kit = kit;
  now = 7;
  is_known = λ m. true;
  hash = hash;
  random = codes "new";
  fresh_id = 9;
}

base_valid : validate base ≡ ok tt
unfolding validate
base_valid = refl

handle-Keeps_example :
    filter (other 1) (handle environment (some (codes "kb_old")) delete_own store).1.bases
    ≡ filter (other 1) store.bases
unfolding trim is_space
handle-Keeps_example =
    handle-Keeps environment delete_own store (codes "kb_old") base refl refl base_valid
