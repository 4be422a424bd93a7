-- ===== src/PrefetchUrl/Tests.antt =====
-- The theorem on the prefetched links at a small page.
use ideacrawler.Prelude.{String, List, [], ◌∷◌, val, ◌≡◌, refl, has_prefix, has_suffix}
use ideacrawler.Samples.{site, site_url}
use ideacrawler.PrefetchUrl.{absolute_links, validate_link, is_valid_link}
use ideacrawler.PrefetchUrl.Links.{Gives, absolute_links-Gives}

abbrev links : List String
links = "/a.css" ∷ "/b" ∷ "feed.xml" ∷ "http://x/c.js" ∷ []

absolute_links-Gives_example :
    Gives site (site_url "/") links (absolute_links site (site_url "/") links)
absolute_links-Gives_example = absolute_links-Gives site (site_url "/") links

prefetched : absolute_links site (site_url "/") links ≡ val ("/a.css" ∷ "http://x/c.js" ∷ [])
unfolding absolute_links validate_link is_valid_link has_prefix has_suffix
prefetched = refl
