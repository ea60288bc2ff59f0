-- ===== src/Lib.antt =====
-- The pages of photo-blog: the JavaScript that shows albums in a browser and that drives the
-- tables of the database and statistics pages. The server (Go) and the vendored scripts are not
-- part of this model.
--
-- * resources/static/db/script.js and resources/static/stats/script.js, the widget
--   `fancyTable`: Table.antt. `Settings` has the options that are read, `Table` is
--   `elm.fancyTable` with the rows and the pagination bar; `table_update`, `click_page` and
--   `change_search` are `tableUpdate` (the two files have the same widget, apart from spaces)
--   and the handlers of the links and of the search field. The match of a cell against a search
--   is a parameter of it; Table/Match.antt models `isSearchMatch`, and Table/View.antt states
--   what a reader sees of the widget. Table/Sorting.antt adds the columns: `sortFunction`,
--   `tableSort`, the handlers of the headers and of the columns' search fields, and the setup
--   of a table; the sort of the language is a parameter that returns a permutation of the rows.
-- * resources/static/album.js, `loadAlbum`: Album/Params.antt models the parameters and
--   variables at its beginning; Album/Screen.antt models the styles for narrow screens.
-- * resources/static/album.js, `renderAlbum`: Album/Bounds.antt and Album/MapSides.antt model
--   `gpsBounds` from the images' positions, the tracks and the album's settings up to the call
--   of `fitBounds`; Album/Nearest.antt models the search of `gpxPopupHandler` for the point of
--   a track that is nearest to a click, for any distance, and the time that it shows;
--   Album/Map.antt models the markers of images, the popups of markers and tracks, and
--   `openByHashRegistry`, and Album/Map/Tracks.antt the layers that can be switched;
--   Album/Gallery.antt models the loop that fills the gallery, with `hashByIdx`, `idxByHash`
--   and `chronoTexts`; Album/Link.antt models the attributes of an image's link,
--   Album/Caption.antt its caption and its table of exif data, as texts, with the properties
--   that the page adds in Album/Caption/Properties.antt, Album/Sprites.antt the styles of
--   thumbnails and markers that are parts of a larger picture, and Album/Nodes.antt the
--   elements that a link and its caption consist of, with the selectors that find them.
-- * resources/static/album.js, the handlers of the viewer: Viewer/Time.antt models `lastBlur`,
--   `unfocused` and `currentImage`; Viewer/Address.antt models the address of the page and,
--   with resources/static/album_extra.js, full screen, with the function of the page that it
--   calls, which the last gallery loaded has set; Viewer/Open.antt models `imgHash` and the
--   image that the page opens; Viewer/Keys.antt the key that removes the shown image;
--   Viewer/Panel.antt what is shown beside a slide: the table of exif data, the short exif
--   text, the caption, the link for downloads and the picture that it opens from.
-- * resources/static/album_extra.js, `collectThumbVisibility`: Thumbs.antt models the callback
--   of its observer, with `visibleSince`, `visibleFor` and what is handed to `collectStats`.
-- * resources/static/client.js and the functions of resources/static/album_extra.js that call
--   it: Client.antt models the methods of `Backend` that the pages use, each as a request with
--   the cases of its reply, and the modules of Client/Methods.antt the others;
--   Client/Actions.antt has `deleteAlbum`, `reindexAlbum`, `addToFeatured`, `onAlbumCreated`,
--   `removeImage`, `fillFavorite`, `toggleFavorite` and the loading of an album as the effects
--   of a reply. The server is a parameter: its reply.
-- * resources/static/album_extra.js, `enableDragNDropImagesReordering`: Drag.antt models the
--   gallery as a list of elements with their times, drops, the requests that are under way, and
--   replies. Drag/Placed.antt and Drag/Kept.antt have what a move leaves as it is,
--   Drag/Times.antt and Drag/Order.antt the order of the times, and Drag/Session.antt,
--   Drag/Stale.antt, Drag/Answered.antt and Drag/Reordered.antt the runs.
-- * resources/static/album_extra.js, `beforeUploadRequest`: Upload.antt models the header that
--   is set.
-- * resources/static/album_extra.js, `collectStats`: Stats.antt models the object that is sent.
-- * resources/static/menu.js, the menu: Menu.antt models `toggleClass`, `toggleAll` and
--   `handleEvent`, with the classes of an element as a list of words.
-- * resources/static/app.js, the visitor: Visitor.antt models the visitor's cookie, the stored
--   entry and `setLowRes` and `setShowExif`; FileSize.antt models `humanFileSize` with its
--   default arguments, with exact quotients, by recursion on the units that are left, and
--   FileSize/Rounds.antt its loop, round by round.
-- * resources/static/db/script.js, `renderResult` and `onQuerySQLSuccess`, and
--   resources/static/stats/script.js, `renderTableContent`: Results.antt models the tables as
--   texts, and Results/Query.antt the page of a query.
-- * resources/static/blurhash.js, the picture in place of an image: BlurHash.antt models the
--   reading of numbers in base 83 and the whole numbers in them, and BlurHash/Picture.antt the
--   loops over the pixels with their writes to the array, for any conversion of colours and any
--   cosine.
-- * internal/infra/image/cloudflare/worker.js, the worker: Worker.antt models `fetch`, with the
--   body as it is read, the models that are run and the reply; Worker/Models.antt and
--   Worker/Translations.antt follow the part after the image is read.
--
-- The parts meet in `renderAlbum`, which builds the gallery once; the viewer then reads
-- `hashByIdx` of the gallery, which the model of the address takes as a function.
-- Viewer/Open/Shared.antt joins the gallery, the address and the opening of a page,
-- Album/Map/Click.antt the gallery, the registry and the quoted names in a popup, as they are
-- read from the link's attribute, and Viewer/Panel the viewer and the elements of the gallery.
-- Drag and drop uses the calls of Client.antt, whose effects move the images.
--
-- Numbers are natural numbers and the integers of Base/Int.antt; coordinates are any ordered
-- type (`Numbers` of Album/Bounds.antt), without NaN. All loops are recursive on a list or on
-- the number of rounds that are left, so none has fuel but that of FileSize/Rounds.antt, which
-- ends on the last of eight units. Events are explicit sequences: a run applies the handlers
-- one after the other, as the browser does.
--
-- Not modelled: what leaflet draws, the upload widget, the floating-point computations of a
-- blur hash (the conversions of colours and the cosine) and the distance of two points on the
-- globe, which are parameters, and `render` of resources/static/db/script.js, which nothing
-- calls.
mod Base
pub mod Table
pub mod Album
pub mod Viewer
pub mod Thumbs
pub mod Client
pub mod Drag
pub mod Upload
pub mod Stats
pub mod Menu
pub mod Visitor
pub mod FileSize
pub mod Results
pub mod BlurHash
pub mod Worker
