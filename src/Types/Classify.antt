-- ===== src/Types/Classify.antt =====
-- `sniToAppType` of src/types.cpp.
pub mod Shadow
use multi_threaded_dpi_engin.Base.{
  Bool, true, false, ◌||◌, List, [], ◌∷◌, if◌then◌else◌, Bytes, codes, lower, contains_text,
}
use multi_threaded_dpi_engin.Types.App.{
  AppType, unknown, https, google, facebook, youtube, twitter, instagram, netflix, amazon,
  microsoft, apple, whatsapp, telegram, tiktok, spotify, zoom, discord, github, cloudflare,
}

-- lower_sni.find(n1) != npos || lower_sni.find(n2) != npos || ...
unfoldable pub has_any : List Bytes → Bytes → Bool
has_any [] s = false
has_any (n ∷ ns) s = contains_text n s || has_any ns s

-- The names in the order of the source.
abbrev pub google_names : List Bytes
google_names =
    codes "google" ∷ codes "gstatic" ∷ codes "googleapis" ∷ codes "ggpht" ∷ codes "gvt1" ∷ []

abbrev pub youtube_names : List Bytes
youtube_names = codes "youtube" ∷ codes "ytimg" ∷ codes "youtu.be" ∷ codes "yt3.ggpht" ∷ []

abbrev pub facebook_names : List Bytes
facebook_names =
    codes "facebook" ∷ codes "fbcdn" ∷ codes "fb.com" ∷ codes "fbsbx" ∷ codes "meta.com" ∷ []

abbrev pub instagram_names : List Bytes
instagram_names = codes "instagram" ∷ codes "cdninstagram" ∷ []

abbrev pub whatsapp_names : List Bytes
whatsapp_names = codes "whatsapp" ∷ codes "wa.me" ∷ []

abbrev pub twitter_names : List Bytes
twitter_names = codes "twitter" ∷ codes "twimg" ∷ codes "x.com" ∷ codes "t.co" ∷ []

abbrev pub netflix_names : List Bytes
netflix_names = codes "netflix" ∷ codes "nflxvideo" ∷ codes "nflximg" ∷ []

abbrev pub amazon_names : List Bytes
amazon_names = codes "amazon" ∷ codes "amazonaws" ∷ codes "cloudfront" ∷ codes "aws" ∷ []

abbrev pub microsoft_names : List Bytes
microsoft_names =
    codes "microsoft"
    ∷ codes "msn.com"
    ∷ codes "office"
    ∷ codes "azure"
    ∷ codes "live.com"
    ∷ codes "outlook"
    ∷ codes "bing"
    ∷ []

abbrev pub apple_names : List Bytes
apple_names = codes "apple" ∷ codes "icloud" ∷ codes "mzstatic" ∷ codes "itunes" ∷ []

abbrev pub telegram_names : List Bytes
telegram_names = codes "telegram" ∷ codes "t.me" ∷ []

abbrev pub tiktok_names : List Bytes
tiktok_names = codes "tiktok" ∷ codes "tiktokcdn" ∷ codes "musical.ly" ∷ codes "bytedance" ∷ []

abbrev pub spotify_names : List Bytes
spotify_names = codes "spotify" ∷ codes "scdn.co" ∷ []

abbrev pub zoom_names : List Bytes
zoom_names = codes "zoom" ∷ []

abbrev pub discord_names : List Bytes
discord_names = codes "discord" ∷ codes "discordapp" ∷ []

abbrev pub github_names : List Bytes
github_names = codes "github" ∷ codes "githubusercontent" ∷ []

abbrev pub cloudflare_names : List Bytes
cloudflare_names = codes "cloudflare" ∷ codes "cf-" ∷ []

-- The tests from the lower-case copy on.
unfoldable pub lower_to_app_type : Bytes → AppType
lower_to_app_type s =
    if has_any google_names s
    then google
    else if has_any youtube_names s
    then youtube
    else if has_any facebook_names s
    then facebook
    else if has_any instagram_names s
    then instagram
    else if has_any whatsapp_names s
    then whatsapp
    else if has_any twitter_names s
    then twitter
    else if has_any netflix_names s
    then netflix
    else if has_any amazon_names s
    then amazon
    else if has_any microsoft_names s
    then microsoft
    else if has_any apple_names s
    then apple
    else if has_any telegram_names s
    then telegram
    else if has_any tiktok_names s
    then tiktok
    else if has_any spotify_names s
    then spotify
    else if has_any zoom_names s
    then zoom
    else if has_any discord_names s
    then discord
    else if has_any github_names s
    then github
    else if has_any cloudflare_names s
    then cloudflare
    else https

unfoldable pub sni_to_app_type : Bytes → AppType
unfolding lower_to_app_type
sni_to_app_type [] = unknown
sni_to_app_type (c ∷ cs) = lower_to_app_type (lower (c ∷ cs))
