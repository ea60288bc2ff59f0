-- ===== src/Client/Methods/Statistics.antt =====
-- The calls of the server for statistics: methods of `Backend` in resources/static/client.js.
use Prim.Native.String.{String}
use photo_blog.Base.{Option, List, [], ◌∷◌, ◌++◌}
use photo_blog.Results.{◌+s◌}
use photo_blog.Client.{Effect, get, head, no_body, param, url_with, raw, parsed, Call}

module _ (Json : Type 0) (parse : String → Option Json) (encode : String → String)
    (base_url : String) where
  unfoldable pub collect_stats :
      (v ref sw sh px main album thumb prt img w h mw mh time : Option String)
      (on_no_content : Option (List Effect))
      → Call Json parse encode base_url
  collect_stats v ref sw sh px main album thumb prt img w h mw mh time on_no_content = record {
    verb = get;
    url = url_with encode (base_url +s "/stats") (
        param "v" v
        ++ (param "ref" ref
            ++ (param "sw" sw
                ++ (param "sh" sh
                    ++ (param "px" px
                        ++ (param "main" main
                            ++ (param "album" album
                                ++ (param "thumb" thumb
                                    ++ (param "prt" prt
                                        ++ (param "img" img
                                            ++ (param "w" w
                                                ++ (param "h" h
                                                    ++ (param "mw" mw
                                                        ++ (param "mh" mh
                                                            ++ (param "time" time)))))))))))))));
    body = no_body;
    cases = (204, raw on_no_content) ∷ [];
  }

  unfoldable pub collect_stats2 :
      (v ref sw sh px main album thumb prt img w h mw mh time : Option String)
      (on_no_content : Option (List Effect))
      → Call Json parse encode base_url
  collect_stats2 v ref sw sh px main album thumb prt img w h mw mh time on_no_content = record {
    verb = head;
    url = url_with encode (base_url +s "/stats") (
        param "v" v
        ++ (param "ref" ref
            ++ (param "sw" sw
                ++ (param "sh" sh
                    ++ (param "px" px
                        ++ (param "main" main
                            ++ (param "album" album
                                ++ (param "thumb" thumb
                                    ++ (param "prt" prt
                                        ++ (param "img" img
                                            ++ (param "w" w
                                                ++ (param "h" h
                                                    ++ (param "mw" mw
                                                        ++ (param "mh" mh
                                                            ++ (param "time" time)))))))))))))));
    body = no_body;
    cases = (204, raw on_no_content) ∷ [];
  }

  unfoldable pub stats_show_daily_total :
      (on_no_content : Option (List Effect)) (on_unauthorized : Option (Json → List Effect))
      → Call Json parse encode base_url
  stats_show_daily_total on_no_content on_unauthorized = record {
    verb = get;
    url = url_with encode (base_url +s "/stats/daily.html") [];
    body = no_body;
    cases = (204, raw on_no_content) ∷ (401, parsed on_unauthorized) ∷ [];
  }

  unfoldable pub stats_show_daily_total2 :
      (on_no_content on_unauthorized : Option (List Effect)) → Call Json parse encode base_url
  stats_show_daily_total2 on_no_content on_unauthorized = record {
    verb = head;
    url = url_with encode (base_url +s "/stats/daily.html") [];
    body = no_body;
    cases = (204, raw on_no_content) ∷ (401, raw on_unauthorized) ∷ [];
  }

  unfoldable pub stats_show_refers :
      (on_no_content : Option (List Effect)) (on_unauthorized : Option (Json → List Effect))
      → Call Json parse encode base_url
  stats_show_refers on_no_content on_unauthorized = record {
    verb = get;
    url = url_with encode (base_url +s "/stats/refers.html") [];
    body = no_body;
    cases = (204, raw on_no_content) ∷ (401, parsed on_unauthorized) ∷ [];
  }

  unfoldable pub stats_show_refers2 :
      (on_no_content on_unauthorized : Option (List Effect)) → Call Json parse encode base_url
  stats_show_refers2 on_no_content on_unauthorized = record {
    verb = head;
    url = url_with encode (base_url +s "/stats/refers.html") [];
    body = no_body;
    cases = (204, raw on_no_content) ∷ (401, raw on_unauthorized) ∷ [];
  }

  unfoldable pub stats_top_images :
      (album_name : Option String) (on_no_content : Option (List Effect))
      (on_unauthorized : Option (Json → List Effect))
      → Call Json parse encode base_url
  stats_top_images album_name on_no_content on_unauthorized = record {
    verb = get;
    url = url_with encode (base_url +s "/stats/top-images.html") (param "album_name" album_name);
    body = no_body;
    cases = (204, raw on_no_content) ∷ (401, parsed on_unauthorized) ∷ [];
  }

  unfoldable pub stats_top_images2 :
      (album_name : Option String) (on_no_content on_unauthorized : Option (List Effect))
      → Call Json parse encode base_url
  stats_top_images2 album_name on_no_content on_unauthorized = record {
    verb = head;
    url = url_with encode (base_url +s "/stats/top-images.html") (param "album_name" album_name);
    body = no_body;
    cases = (204, raw on_no_content) ∷ (401, raw on_unauthorized) ∷ [];
  }

  unfoldable pub stats_top_pages :
      (on_no_content : Option (List Effect)) (on_unauthorized : Option (Json → List Effect))
      → Call Json parse encode base_url
  stats_top_pages on_no_content on_unauthorized = record {
    verb = get;
    url = url_with encode (base_url +s "/stats/top-pages.html") [];
    body = no_body;
    cases = (204, raw on_no_content) ∷ (401, parsed on_unauthorized) ∷ [];
  }

  unfoldable pub stats_top_pages2 :
      (on_no_content on_unauthorized : Option (List Effect)) → Call Json parse encode base_url
  stats_top_pages2 on_no_content on_unauthorized = record {
    verb = head;
    url = url_with encode (base_url +s "/stats/top-pages.html") [];
    body = no_body;
    cases = (204, raw on_no_content) ∷ (401, raw on_unauthorized) ∷ [];
  }

  unfoldable pub stats_show_visitor :
      (hash : String) (on_no_content : Option (List Effect))
      (on_unauthorized : Option (Json → List Effect))
      → Call Json parse encode base_url
  stats_show_visitor hash on_no_content on_unauthorized = record {
    verb = get;
    url = url_with encode (base_url +s "/stats/visitor/" +s encode hash +s ".html") [];
    body = no_body;
    cases = (204, raw on_no_content) ∷ (401, parsed on_unauthorized) ∷ [];
  }

  unfoldable pub stats_show_visitor2 :
      (hash : String) (on_no_content on_unauthorized : Option (List Effect))
      → Call Json parse encode base_url
  stats_show_visitor2 hash on_no_content on_unauthorized = record {
    verb = head;
    url = url_with encode (base_url +s "/stats/visitor/" +s encode hash +s ".html") [];
    body = no_body;
    cases = (204, raw on_no_content) ∷ (401, raw on_unauthorized) ∷ [];
  }
