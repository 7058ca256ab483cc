-- ===== src/Api/Navigation/Business.antt =====
-- api/navigation.go: the items under "Business, industry and trade".
use dp_topic_api.Prelude.{String}
use dp_topic_api.Models.Navigation.{TopicNonReferential, SubtopicItems, topic, absent, item, end}
use dp_topic_api.Api.Navigation.Entry.{entry, link_to}
use dp_topic_api.Api.Navigation.Labels.{label}

unfoldable pub business_subtopics : String → SubtopicItems
unfolding label
business_subtopics lang =
    (item
      (topic
        (entry "Business"
          "UK businesses registered for VAT and PAYE with regional breakdowns, including data on size (employment and turnover) and activity (type of industry), research and development, and business services."
          "business" (label "business" lang) (link_to "business" "/topics/business")
          "/businessindustryandtrade/business")
        absent)
      (item
        (topic
          (entry "Changes to business"
            "UK business growth, survival and change over time. These figures are an informal indicator of confidence in the UK economy."
            "changes-to-business" (label "changes-to-business" lang)
            (link_to "changestobusiness" "/topics/changestobusiness")
            "/businessindustryandtrade/changestobusiness")
          absent)
        (item
          (topic
            (entry "Construction industry"
              "Construction of new buildings and repairs or alterations to existing properties in Great Britain measured by the amount charged for the work, including work by civil engineering companies. "
              "construction-industry" (label "construction-industry" lang)
              (link_to "constructionindustry" "/topics/constructionindustry")
              "/businessindustryandtrade/constructionindustry")
            absent)
          (item
            (topic
              (entry "IT and internet industry"
                "Internet sales by businesses in the UK (total value and as a percentage of all retail sales) and the percentage of businesses that have a website and broadband connection. These figures indicate the importance of the internet to UK businesses."
                "it-and-internet-industry" (label "it-and-internet-industry" lang)
                (link_to "itandinternetindustry" "/topics/itandinternetindustry")
                "/businessindustryandtrade/itandinternetindustry")
              absent)
            (item
              (topic
                (entry "International trade"
                  "Trade in goods and services across the UK's international borders, including total imports and exports, the types of goods and services traded and general trends in international trade. "
                  "international-trade" (label "international-trade" lang)
                  (link_to "internationaltrade" "/topics/internationaltrade")
                  "/businessindustryandtrade/internationaltrade")
                absent)
              (item
                (topic
                  (entry "Manufacturing and production industry"
                    "UK manufacturing and other production industries (such as mining and quarrying, energy supply, water supply and waste management), including total UK production output, and UK manufactures' sales by product and industrial division, with EU comparisons."
                    "manufacturing-and-production-industry"
                    (label "manufacturing-and-production-industry" lang)
                    (link_to "manufacturingandproductionindustry"
                      "/topics/manufacturingandproductionindustry")
                    "/businessindustryandtrade/manufacturingandproductionindustry")
                  absent)
                (item
                  (topic
                    (entry "Retail industry" "" "retail-industry" (label "retail-industry" lang)
                      (link_to "retailindustry" "/topics/retailindustry")
                      "/businessindustryandtrade/retailindustry")
                    absent)
                  (item
                    (topic
                      (entry "Tourism industry"
                        "Tourism and travel (including accommodation services, food and beverage services, passenger transport services, vehicle hire, travel agencies and sports, recreational and conference services), employment levels and output of the tourism industry, the number of visitors to the UK and the amount they spend."
                        "tourism-industry" (label "tourism-industry" lang)
                        (link_to "tourismindustry" "/topics/tourismindustry")
                        "/businessindustryandtrade/tourismindustry")
                      absent)
                    end))))))))

unfoldable pub business_item : String → TopicNonReferential
unfolding label business_subtopics
business_item lang =
    topic
      (entry "Business, industry and trade"
        "Activities of businesses and industry in the UK, including data on the production and trade of goods and services, sales by retailers, characteristics of businesses, the construction and manufacturing sectors, and international trade."
        "business-industry-and-trade" (label "business-industry-and-trade" lang)
        (link_to "businessindustryandtrade" "/topics/businessindustryandtrade")
        "/businessindustryandtrade")
      (business_subtopics lang)
