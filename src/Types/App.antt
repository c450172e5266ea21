-- ===== src/Types/App.antt =====
-- `enum class AppType` of include/types.h and `appTypeToString` of src/types.cpp.
use multi_threaded_dpi_engin.Base.{
  ℕ, zero, suc, Bool, true, ◌==◌, ◌≡◌, refl, ◌↔◌, Bytes, codes, Option, some, none, List, [], ◌∷◌,
  bytes_eq, if◌then◌else◌, ◌≢◌, sym, ap, ◌∙◌, ==_iff,
}
use multi_threaded_dpi_engin.Base.Eq.{Eq}

pub data AppType : Type 0 where
  unknown http https dns tls quic : AppType
  google facebook youtube twitter instagram netflix amazon microsoft apple : AppType
  whatsapp telegram tiktok spotify zoom discord github cloudflare : AppType
  app_count : AppType

-- `static_cast<int>(app)`
unfoldable pub app_code : AppType → ℕ
app_code unknown = 0
app_code http = 1
app_code https = 2
app_code dns = 3
app_code tls = 4
app_code quic = 5
app_code google = 6
app_code facebook = 7
app_code youtube = 8
app_code twitter = 9
app_code instagram = 10
app_code netflix = 11
app_code amazon = 12
app_code microsoft = 13
app_code apple = 14
app_code whatsapp = 15
app_code telegram = 16
app_code tiktok = 17
app_code spotify = 18
app_code zoom = 19
app_code discord = 20
app_code github = 21
app_code cloudflare = 22
app_code app_count = 23

-- The values below APP_COUNT in the order of the enumeration, over which the source loops.
abbrev pub all_apps : List AppType
all_apps =
    unknown ∷ http ∷ https ∷ dns ∷ tls ∷ quic ∷ google ∷ facebook ∷ youtube ∷ twitter ∷ instagram
    ∷ netflix ∷ amazon ∷ microsoft ∷ apple ∷ whatsapp ∷ telegram ∷ tiktok ∷ spotify ∷ zoom ∷ discord
    ∷ github ∷ cloudflare ∷ []

unfoldable pub app_beq : AppType → AppType → Bool
unfolding app_code
app_beq a b = app_code a == app_code b

-- `static_cast<AppType>(i)`, for the loop over `i < APP_COUNT`.
nth_app : List AppType → ℕ → AppType
nth_app [] n = app_count
nth_app (a ∷ l) zero = a
nth_app (a ∷ l) (suc n) = nth_app l n

nth_app-app_code : (a : AppType) → nth_app all_apps (app_code a) ≡ a
unfolding nth_app app_code
nth_app-app_code unknown = refl
nth_app-app_code _ = refl

app_code-injective : (a b : AppType) → app_code a ≡ app_code b → a ≡ b
app_code-injective a b h = sym (nth_app-app_code a) ∙ ap (nth_app all_apps) h ∙ nth_app-app_code b

pub app_beq_iff : (a b : AppType) → (app_beq a b ≡ true) ↔ (a ≡ b)
unfolding app_beq
app_beq_iff a b = (
  (λ h. app_code-injective a b ((==_iff (app_code a) (app_code b)).0 h)),
  (λ h. (==_iff (app_code a) (app_code b)).1 (ap app_code h)),
)

instance abbrev pub app_eq : Eq AppType
app_eq = record { beq = app_beq; beq_iff = app_beq_iff }

-- `appTypeToString`
unfoldable pub app_name : AppType → Bytes
app_name unknown = codes "Unknown"
app_name http = codes "HTTP"
app_name https = codes "HTTPS"
app_name dns = codes "DNS"
app_name tls = codes "TLS"
app_name quic = codes "QUIC"
app_name google = codes "Google"
app_name facebook = codes "Facebook"
app_name youtube = codes "YouTube"
app_name twitter = codes "Twitter/X"
app_name instagram = codes "Instagram"
app_name netflix = codes "Netflix"
app_name amazon = codes "Amazon"
app_name microsoft = codes "Microsoft"
app_name apple = codes "Apple"
app_name whatsapp = codes "WhatsApp"
app_name telegram = codes "Telegram"
app_name tiktok = codes "TikTok"
app_name spotify = codes "Spotify"
app_name zoom = codes "Zoom"
app_name discord = codes "Discord"
app_name github = codes "GitHub"
app_name cloudflare = codes "Cloudflare"
app_name app_count = codes "Unknown"

-- The loop `for i < APP_COUNT` that turns a name back into an application.
unfoldable pub find_app : Bytes → List AppType → Option AppType
find_app name [] = none
find_app name (a ∷ rest) = if bytes_eq (app_name a) name then some a else find_app name rest

unfoldable pub app_of_name : Bytes → Option AppType
unfolding find_app app_name bytes_eq
app_of_name name = find_app name all_apps

-- Every application, the count at the end of the enumeration apart, is found again by its name.
pub app_of_name-app_name : (a : AppType) → a ≢ app_count → app_of_name (app_name a) ≡ some a
unfolding app_of_name
app_of_name-app_name app_count h = absurd (h refl)
app_of_name-app_name _ h = refl
