-- ===== src/Client/Methods/Tests.antt =====
-- Every call lists a status once: no case of a `switch` is out of reach.
use Prim.Native.String.{String}
use photo_blog.Base.{
  ℕ, ◌≡◌, refl, Bool, true, false, not, ◌&&◌, ◌||◌, Option, none, List, [], ◌∷◌, ◌==◌,
}
use photo_blog.Client.{Callback, Call}
use photo_blog.Client.Methods.Albums.{
  show_main, show_main2, control_add_album, control_add_album2, control_create_album,
  control_update_photo_album, get_album_contents2, control_add_directory_recursive,
  control_get_photo_album, control_get_photo_album2,
}
use photo_blog.Client.Methods.AlbumFiles.{
  download_album, download_album2, control_add_directory, control_add_remote, get_albums,
  get_albums2, control_cleanup_remote,
}
use photo_blog.Client.Methods.Editing.{
  control_edit_album, control_edit_album2, control_edit_image, control_edit_image2,
  control_settings_edit_admin_password, control_settings_edit_admin_password2,
  control_settings_edit, control_settings_edit2, control_update_photo_exif, control_get_photo_exif,
  control_get_photo_exif2, serve_favicon, serve_favicon2,
}
use photo_blog.Client.Methods.Positions.{
  get_favorite2, control_gather_files, control_update_photogps, control_get_photogps,
  control_get_photogps2,
}
use photo_blog.Client.Methods.Help.{
  help_index, help_index2, help_serve_file, help_serve_file2, help_markdown, help_markdown2,
}
use photo_blog.Client.Methods.Images.{
  control_update_photo_image, get_image_info, get_image_info2, show_image3, show_image4, show_image,
  show_image2, control_get_photo_image, control_get_photo_image2,
}
use photo_blog.Client.Methods.Services.{
  control_index_remote, swaggest_jsonform_go_repository_get_schema,
  swaggest_jsonform_go_repository_get_schema2, control_login, control_login2, map_tile, map_tile2,
  add_message, control_approve_message,
}
use photo_blog.Client.Methods.OpenGraph.{og4, og, og6, og5, og7, og3, og2, og8}
use photo_blog.Client.Methods.Search.{
  download_images_poi_gpx, download_images_poi_gpx2, search_images, search_images2,
}
use photo_blog.Client.Methods.Settings.{
  control_settings_set_appearance, control_settings_set_external_api,
  control_settings_set_image_prompt, control_settings_set_indexing, control_settings_set_maps,
  control_settings_set_password, control_settings_set_privacy, control_self_update,
  control_self_update2, control_settings_set_storage, control_version, control_version2,
  control_settings_set_visitors,
}
use photo_blog.Client.Methods.Statistics.{
  collect_stats, collect_stats2, stats_show_daily_total, stats_show_daily_total2, stats_show_refers,
  stats_show_refers2, stats_top_images, stats_top_images2, stats_top_pages, stats_top_pages2,
  stats_show_visitor, stats_show_visitor2,
}
use photo_blog.Client.Methods.Files.{
  serve_site_file, serve_site_file2, show_thumb, show_thumb2, download_gpx, download_gpx2,
}
use photo_blog.Client.Methods.Shown.{
  show_album, show_album2, show_pano, show_pano2, show_album_at_image, show_album_at_image2,
}

abbrev no_json : String → Option String
no_json text = none

abbrev same : String → String
same s = s

abbrev Request : Type 0
Request = Call String no_json same ""

abbrev is_case : ℕ → List (ℕ × Callback String no_json same "") → Bool
is_case n [] = false
is_case n ((m, c) ∷ cases) = m == n || is_case n cases

abbrev differ : List (ℕ × Callback String no_json same "") → Bool
differ [] = true
differ ((n, c) ∷ cases) = not (is_case n cases) && differ cases

abbrev all_differ : List Request → Bool
all_differ [] = true
all_differ (c ∷ calls) = differ c.cases && all_differ calls

albums_differ :
    all_differ (
      show_main String no_json same "" none none none
      ∷ show_main2 String no_json same "" none none none
      ∷ control_add_album String no_json same "" none none none none
      ∷ control_add_album2 String no_json same "" none none none none
      ∷ control_create_album String no_json same "" none none none none none
      ∷ control_update_photo_album String no_json same "" none none none none none
      ∷ get_album_contents2 String no_json same "" "a" none none none
      ∷ control_add_directory_recursive String no_json same "" none none none none none
      ∷ control_get_photo_album String no_json same "" "a" none none none none
      ∷ control_get_photo_album2 String no_json same "" "a" none none none none
      ∷ [])
    ≡ true
unfolding show_main show_main2 control_add_album control_add_album2 control_create_album
    control_update_photo_album get_album_contents2 control_add_directory_recursive
    control_get_photo_album control_get_photo_album2
albums_differ = refl

album_files_differ :
    all_differ (
      download_album String no_json same "" "a" none none
      ∷ download_album2 String no_json same "" "a" none none
      ∷ control_add_directory String no_json same "" "a" none none none none none
      ∷ control_add_remote String no_json same "" "a" none none none none none none
      ∷ get_albums String no_json same "" none none none
      ∷ get_albums2 String no_json same "" none none none
      ∷ control_cleanup_remote String no_json same "" none none
      ∷ [])
    ≡ true
unfolding download_album download_album2 control_add_directory control_add_remote get_albums
    get_albums2 control_cleanup_remote
album_files_differ = refl

editing_differ :
    all_differ (
      control_edit_album String no_json same "" "a" none none none none
      ∷ control_edit_album2 String no_json same "" "a" none none none none
      ∷ control_edit_image String no_json same "" "a" none none none none
      ∷ control_edit_image2 String no_json same "" "a" none none none none
      ∷ control_settings_edit_admin_password String no_json same "" none none none
      ∷ control_settings_edit_admin_password2 String no_json same "" none none none
      ∷ control_settings_edit String no_json same "" none none none
      ∷ control_settings_edit2 String no_json same "" none none none
      ∷ control_update_photo_exif String no_json same "" none none none none none
      ∷ control_get_photo_exif String no_json same "" "a" none none none none
      ∷ control_get_photo_exif2 String no_json same "" "a" none none none none
      ∷ serve_favicon String no_json same "" none
      ∷ serve_favicon2 String no_json same "" none
      ∷ [])
    ≡ true
unfolding control_edit_album control_edit_album2 control_edit_image control_edit_image2
    control_settings_edit_admin_password control_settings_edit_admin_password2 control_settings_edit
    control_settings_edit2 control_update_photo_exif control_get_photo_exif control_get_photo_exif2
    serve_favicon serve_favicon2
editing_differ = refl

positions_differ :
    all_differ (
      get_favorite2 String no_json same "" none none
      ∷ control_gather_files String no_json same "" "a" none none none none none
      ∷ control_update_photogps String no_json same "" none none none none none
      ∷ control_get_photogps String no_json same "" "a" none none none none
      ∷ control_get_photogps2 String no_json same "" "a" none none none none
      ∷ [])
    ≡ true
unfolding get_favorite2 control_gather_files control_update_photogps control_get_photogps
    control_get_photogps2
positions_differ = refl

help_differ :
    all_differ (
      help_index String no_json same "" none
      ∷ help_index2 String no_json same "" none
      ∷ help_serve_file String no_json same "" "a" none
      ∷ help_serve_file2 String no_json same "" "a" none
      ∷ help_markdown String no_json same "" "a" none
      ∷ help_markdown2 String no_json same "" "a" none
      ∷ [])
    ≡ true
unfolding help_index help_index2 help_serve_file help_serve_file2 help_markdown help_markdown2
help_differ = refl

images_differ :
    all_differ (
      control_update_photo_image String no_json same "" none none none none none
      ∷ get_image_info String no_json same "" "a" none none none
      ∷ get_image_info2 String no_json same "" "a" none none none
      ∷ show_image3 String no_json same "" "a" none
      ∷ show_image4 String no_json same "" "a" none
      ∷ show_image String no_json same "" "a" none
      ∷ show_image2 String no_json same "" "a" none
      ∷ control_get_photo_image String no_json same "" "a" none none none none
      ∷ control_get_photo_image2 String no_json same "" "a" none none none none
      ∷ [])
    ≡ true
unfolding control_update_photo_image get_image_info get_image_info2 show_image3 show_image4
    show_image show_image2 control_get_photo_image control_get_photo_image2
images_differ = refl

services_differ :
    all_differ (
      control_index_remote String no_json same "" none none none none none
      ∷ swaggest_jsonform_go_repository_get_schema String no_json same "" "a" none none
      ∷ swaggest_jsonform_go_repository_get_schema2 String no_json same "" "a" none none
      ∷ control_login String no_json same "" none none
      ∷ control_login2 String no_json same "" none none
      ∷ map_tile String no_json same "" "a" "a" "a" "a" "a" none
      ∷ map_tile2 String no_json same "" "a" "a" "a" "a" "a" none
      ∷ add_message String no_json same "" none none
      ∷ control_approve_message String no_json same "" none none none
      ∷ [])
    ≡ true
unfolding control_index_remote swaggest_jsonform_go_repository_get_schema
    swaggest_jsonform_go_repository_get_schema2 control_login control_login2 map_tile map_tile2
    add_message control_approve_message
services_differ = refl

open_graph_differ :
    all_differ (
      og4 String no_json same "" none none
      ∷ og String no_json same "" none none
      ∷ og6 String no_json same "" none none
      ∷ og5 String no_json same "" none none
      ∷ og7 String no_json same "" none none
      ∷ og3 String no_json same "" none none
      ∷ og2 String no_json same "" none none
      ∷ og8 String no_json same "" none none
      ∷ [])
    ≡ true
unfolding og4 og og6 og5 og7 og3 og2 og8
open_graph_differ = refl

search_differ :
    all_differ (
      download_images_poi_gpx String no_json same "" "a" none none none
      ∷ download_images_poi_gpx2 String no_json same "" "a" none none none
      ∷ search_images String no_json same "" none none none none none none none
      ∷ search_images2 String no_json same "" none none none none none none none
      ∷ [])
    ≡ true
unfolding download_images_poi_gpx download_images_poi_gpx2 search_images search_images2
search_differ = refl

settings_differ :
    all_differ (
      control_settings_set_appearance String no_json same "" none none none
      ∷ control_settings_set_external_api String no_json same "" none none none
      ∷ control_settings_set_image_prompt String no_json same "" none none none
      ∷ control_settings_set_indexing String no_json same "" none none none
      ∷ control_settings_set_maps String no_json same "" none none none
      ∷ control_settings_set_password String no_json same "" none none none
      ∷ control_settings_set_privacy String no_json same "" none none none
      ∷ control_self_update String no_json same "" none none none
      ∷ control_self_update2 String no_json same "" none none none
      ∷ control_settings_set_storage String no_json same "" none none none
      ∷ control_version String no_json same "" none none
      ∷ control_version2 String no_json same "" none none
      ∷ control_settings_set_visitors String no_json same "" none none none
      ∷ [])
    ≡ true
unfolding control_settings_set_appearance control_settings_set_external_api
    control_settings_set_image_prompt control_settings_set_indexing control_settings_set_maps
    control_settings_set_password control_settings_set_privacy control_self_update
    control_self_update2 control_settings_set_storage control_version control_version2
    control_settings_set_visitors
settings_differ = refl

statistics_differ :
    all_differ (
      collect_stats String no_json same "" none none none none none none none none none none none
        none none none none none
      ∷ collect_stats2 String no_json same "" none none none none none none none none none none none
          none none none none none
      ∷ stats_show_daily_total String no_json same "" none none
      ∷ stats_show_daily_total2 String no_json same "" none none
      ∷ stats_show_refers String no_json same "" none none
      ∷ stats_show_refers2 String no_json same "" none none
      ∷ stats_top_images String no_json same "" none none none
      ∷ stats_top_images2 String no_json same "" none none none
      ∷ stats_top_pages String no_json same "" none none
      ∷ stats_top_pages2 String no_json same "" none none
      ∷ stats_show_visitor String no_json same "" "a" none none
      ∷ stats_show_visitor2 String no_json same "" "a" none none
      ∷ [])
    ≡ true
unfolding collect_stats collect_stats2 stats_show_daily_total stats_show_daily_total2
    stats_show_refers stats_show_refers2 stats_top_images stats_top_images2 stats_top_pages
    stats_top_pages2 stats_show_visitor stats_show_visitor2
statistics_differ = refl

files_differ :
    all_differ (
      serve_site_file String no_json same "" "a" none
      ∷ serve_site_file2 String no_json same "" "a" none
      ∷ show_thumb String no_json same "" "a" "a" none
      ∷ show_thumb2 String no_json same "" "a" "a" none
      ∷ download_gpx String no_json same "" "a" none
      ∷ download_gpx2 String no_json same "" "a" none
      ∷ [])
    ≡ true
unfolding serve_site_file serve_site_file2 show_thumb show_thumb2 download_gpx download_gpx2
files_differ = refl

shown_differ :
    all_differ (
      show_album String no_json same "" "a" none none none none none
      ∷ show_album2 String no_json same "" "a" none none none none none
      ∷ show_pano String no_json same "" "a" "a" none none none
      ∷ show_pano2 String no_json same "" "a" "a" none none none
      ∷ show_album_at_image String no_json same "" "a" "a" none none none none
      ∷ show_album_at_image2 String no_json same "" "a" "a" none none none none
      ∷ [])
    ≡ true
unfolding show_album show_album2 show_pano show_pano2 show_album_at_image show_album_at_image2
shown_differ = refl
