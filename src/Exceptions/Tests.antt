-- ===== src/Exceptions/Tests.antt =====
-- Statuses of some exceptions, and the theorem at one of them.
use shiori_api.Shared.{◌≡◌, refl}
use shiori_api.Exceptions.{content_too_large, context_missing, resolve_status}

too_large_status : resolve_status (content_too_large 7 5) ≡ 413
unfolding resolve_status
too_large_status = refl

default_status : resolve_status context_missing ≡ 400
unfolding resolve_status
default_status = refl
